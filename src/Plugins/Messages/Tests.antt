-- ===== src/Plugins/Messages/Tests.antt =====
-- A plugin that is installed and uninstalled, and the theorems on messages there.
use matterbridge.Base.{ℕ, ◌≡◌, refl, true, false, none, List, [], ◌∷◌, ◌++◌}
use matterbridge.Plugins.{Plugin, Package, Lookup, found, PluginManager}
use matterbridge.Plugins.Registry.{IsSynced}
use matterbridge.Plugins.Messages.{
  without_version, without_tag, install, spawn_response, worker_request, plugins_length, LoadEffect,
  saves, PluginMessage,
}
use matterbridge.Plugins.Messages.Synced.{Delivery, handle_all, handle_all-IsSynced}

abbrev plugin_name : List ℕ
plugin_name = b'p' ∷ b'-' ∷ b'q' ∷ []

abbrev package_json : Package
package_json = record {
  package_name = plugin_name;
  package_version = b'1' ∷ [];
  package_private = false;
  package_description = [];
  package_author = [];
  package_homepage = none;
  package_help = none;
  package_changelog = none;
  package_funding = none;
}

abbrev files : List ℕ → Lookup
files name = found (b'/' ∷ name) package_json

abbrev manager : PluginManager
manager = record { plugins = []; storage = []; has_context = true }

manager-IsSynced : IsSynced manager
manager-IsSynced = record { distinct = tt; own_names = tt; in_storage = refl; context = refl }

-- Loading takes a new version from the package.json, and saves it.
abbrev load_new : Plugin → LoadEffect
load_new p = saves (record p { version = b'2' ∷ [] })

abbrev delivery : PluginMessage → Delivery
delivery m = record { files = files; loading = load_new; delivered = m }

abbrev deliveries : List Delivery
deliveries =
    delivery (
      spawn_response (record {
        package_command = install;
        success = true;
        package_name = plugin_name ++ (b'@' ∷ b'1' ∷ []);
      }))
    ∷ delivery (worker_request plugins_length)
    ∷ []

handle_all-IsSynced_example : IsSynced (handle_all manager deliveries)
handle_all-IsSynced_example =
    handle_all-IsSynced manager deliveries ((refl, λ p. refl), ((refl, λ p. refl), tt))
      manager-IsSynced

-- The version goes at the first dash before a digit; of a scoped name nothing is left.
without_version_test :
    without_version (plugin_name ++ (b'-' ∷ b'1' ∷ b'-' ∷ b'x' ∷ [])) ≡ plugin_name
unfolding without_version
without_version_test = refl

without_tag_test : without_tag (b'@' ∷ plugin_name) ≡ []
unfolding without_tag
without_tag_test = refl
