-- ===== src/Plugins/Tests.antt =====
-- A manager with one plugin, and the theorems of the registry there.
use matterbridge.Base.{
  ℕ, ◌≡◌, refl, true, false, none, some, List, [], ◌∷◌, map_get, map_has, same_text, same_text,
  map_get, map_has, same_text,
}
use matterbridge.Plugins.{
  Plugin, Lookup, not_found, PluginManager, threw, to_storage_plugin, enable, disable,
}
use matterbridge.Plugins.Switching.{by_name, IsSwitched, enable-IsSwitched}
use matterbridge.Plugins.Registry.{IsSynced}

abbrev plugin : Plugin
plugin = record {
  name = 65 ∷ [];
  enabled = true;
  path = 47 ∷ [];
  type = [];
  version = 49 ∷ [];
  description = [];
  author = [];
  is_private = false;
  tarball_path = none;
  homepage = none;
  help = none;
  changelog = none;
  funding = none;
}

abbrev manager : PluginManager
manager = record {
  plugins = (65 ∷ [], plugin) ∷ [];
  storage =
      record {
        stored_name = 65 ∷ [];
        stored_path = 47 ∷ [];
        stored_type = [];
        stored_version = 49 ∷ [];
        stored_description = [];
        stored_author = [];
        stored_enabled = true;
        stored_private = false;
        stored_tarball_path = none;
      }
      ∷ [];
  has_context = true;
}

manager-IsSynced : IsSynced manager
unfolding to_storage_plugin map_has
manager-IsSynced = record {
  distinct = (refl, tt);
  own_names = (refl, tt);
  in_storage = refl;
  context = refl;
}

abbrev no_files : List ℕ → Lookup
no_files path = not_found

registered : map_get (65 ∷ []) manager.plugins ≡ some plugin
unfolding map_get same_text
registered = refl

enable-IsSwitched_example :
    IsSwitched manager (65 ∷ []) plugin threw true (enable manager no_files (65 ∷ []))
    × IsSwitched manager (65 ∷ []) plugin threw false (disable manager no_files (65 ∷ []))
enable-IsSwitched_example =
    enable-IsSwitched manager no_files (65 ∷ []) (65 ∷ []) plugin threw
      (by_name plugin (λ e. cc) registered)
