-- ===== src/Plugins.antt =====
-- packages/core/src/pluginManager.ts: the Map of the registered plugins, its operations enable,
-- disable, remove and add, and its copy in the storage. The live state of a plugin is left out. What
-- `resolve` and the reading of a package.json find is an argument; the storage takes every write once
-- the node context is there.
pub mod Registry
pub mod Switching
pub mod Dependencies
pub mod Fields
pub mod Lifecycle
pub mod Messages
pub mod Tests
use matterbridge.Base.{
  ℕ, Bool, true, false, Option, none, some, List, [], ◌∷◌, map, if◌then◌else◌, map_delete, map_get,
  map_has, map_set, map_values,
}

pub record Plugin : Type 0 where
  pub name : List ℕ
  pub enabled : Bool
  pub path : List ℕ
  pub type : List ℕ
  pub version : List ℕ
  pub description : List ℕ
  pub author : List ℕ
  pub is_private : Bool
  pub tarball_path : Option (List ℕ)
  pub homepage : Option (List ℕ)
  pub help : Option (List ℕ)
  pub changelog : Option (List ℕ)
  pub funding : Option (List ℕ)

pub record StoragePlugin : Type 0 where
  pub stored_name : List ℕ
  pub stored_path : List ℕ
  pub stored_type : List ℕ
  pub stored_version : List ℕ
  pub stored_description : List ℕ
  pub stored_author : List ℕ
  pub stored_enabled : Bool
  pub stored_private : Bool
  pub stored_tarball_path : Option (List ℕ)

-- The fields that `add` takes from a package.json, the helpers getAuthor, getHomepage, getHelp,
-- getChangelog and getFunding applied.
pub record Package : Type 0 where
  pub package_name : List ℕ
  pub package_version : List ℕ
  pub package_private : Bool
  pub package_description : List ℕ
  pub package_author : List ℕ
  pub package_homepage : Option (List ℕ)
  pub package_help : Option (List ℕ)
  pub package_changelog : Option (List ℕ)
  pub package_funding : Option (List ℕ)

-- What a name or path leads to: no package.json, one that cannot be read or parsed, or a package.
pub data Lookup : Type 0 where
  not_found unreadable : Lookup
  found : (package_json_path : List ℕ) → Package → Lookup

pub record PluginManager : Type 0 where
  pub plugins : List (List ℕ × Plugin)
  pub storage : List StoragePlugin
  pub has_context : Bool

-- What an operation returns or throws, and what it emits.
pub data PluginResult : Type 0 where
  returned : Plugin → PluginResult
  returned_null threw : PluginResult

pub data PluginEvent : Type 0 where
  emits_enabled emits_disabled emits_removed emits_added : (name : List ℕ) → PluginEvent

pub record Outcome : Type 0 where
  pub manager : PluginManager
  pub result : PluginResult
  pub events : List PluginEvent

unfoldable pub to_storage_plugin : Plugin → StoragePlugin
to_storage_plugin p = record {
  stored_name = p.name;
  stored_path = p.path;
  stored_type = p.type;
  stored_version = p.version;
  stored_description = p.description;
  stored_author = p.author;
  stored_enabled = p.enabled;
  stored_private = p.is_private;
  stored_tarball_path = p.tarball_path;
}

unfoldable pub saved : PluginManager → PluginManager
saved m = record m { storage = map to_storage_plugin (map_values m.plugins) }

abbrev pub unchanged : PluginManager → Outcome
unchanged m = record { manager = m; result = returned_null; events = [] }

-- The end of an operation: saveToStorage, which throws without a node context, the event, and the
-- plugin. Where the operation catches, an error gives null instead.
unfoldable pub finished : (on_error : PluginResult) → PluginManager → Plugin → PluginEvent → Outcome
unfolding saved
finished on_error m p event =
    if m.has_context
    then record { manager = saved m; result = returned p; events = event ∷ [] }
    else record { manager = m; result = on_error; events = [] }

-- An operation on a registered plugin: its change, its event, and how it ends.
abbrev pub PluginChange : Type 0
PluginChange = PluginResult → PluginManager → List ℕ → Plugin → Outcome

unfoldable pub switch : Bool → PluginChange
unfolding finished
switch enabled on_error m key p =
    finished on_error
      (record m { plugins = map_set key (record p { enabled = enabled }) m.plugins })
      (record p { enabled = enabled })
      (if enabled then emits_enabled p.name else emits_disabled p.name)

unfoldable pub drop_plugin : PluginChange
unfolding finished
drop_plugin on_error m key p =
    finished on_error (record m { plugins = map_delete key m.plugins }) p (emits_removed p.name)

-- The plugin of the name in a package.json.
unfoldable pub on_package : PluginChange → PluginManager → List ℕ → Option Plugin → Outcome
on_package change m key none = unchanged m
on_package change m key (some p) = change returned_null m key p

unfoldable pub on_lookup : PluginChange → PluginManager → Lookup → Outcome
unfolding on_package
on_lookup change m not_found = unchanged m
on_lookup change m unreadable = unchanged m
on_lookup change m (found path pkg) =
    on_package change m pkg.package_name (map_get pkg.package_name m.plugins)

unfoldable pub on_registered :
    PluginChange → PluginManager → List ℕ → Lookup → Option Plugin → Outcome
unfolding on_lookup
on_registered change m name lookup (some p) = change threw m name p
on_registered change m name lookup none = on_lookup change m lookup

-- The frame of enable, disable and remove: the plugin of that name, or else of the pkg there.
unfoldable pub on_plugin : PluginChange → PluginManager → (List ℕ → Lookup) → List ℕ → Outcome
unfolding on_registered
on_plugin change m files [] = unchanged m
on_plugin change m files (c ∷ cs) =
    on_registered change m (c ∷ cs) (files (c ∷ cs)) (map_get (c ∷ cs) m.plugins)

unfoldable pub enable : PluginManager → (List ℕ → Lookup) → List ℕ → Outcome
unfolding on_plugin switch
enable = on_plugin (switch true)

unfoldable pub disable : PluginManager → (List ℕ → Lookup) → List ℕ → Outcome
unfolding on_plugin switch
disable = on_plugin (switch false)

unfoldable pub remove : PluginManager → (List ℕ → Lookup) → List ℕ → Outcome
unfolding on_plugin drop_plugin
remove = on_plugin drop_plugin

-- The plugin that `add` registers, of type "AnyPlatform".
unfoldable pub new_plugin : List ℕ → Package → Plugin
new_plugin path pkg = record {
  name = pkg.package_name;
  enabled = true;
  path = path;
  type = 65 ∷ 110 ∷ 121 ∷ 80 ∷ 108 ∷ 97 ∷ 116 ∷ 102 ∷ 111 ∷ 114 ∷ 109 ∷ [];
  version = pkg.package_version;
  description = pkg.package_description;
  author = pkg.package_author;
  is_private = pkg.package_private;
  tarball_path = none;
  homepage = pkg.package_homepage;
  help = pkg.package_help;
  changelog = pkg.package_changelog;
  funding = pkg.package_funding;
}

unfoldable pub register : PluginManager → List ℕ → Package → Outcome
unfolding finished new_plugin
register m path pkg =
    if map_has pkg.package_name m.plugins
    then unchanged m
    else finished returned_null
        (record m { plugins = map_set pkg.package_name (new_plugin path pkg) m.plugins })
        (new_plugin path pkg) (emits_added pkg.package_name)

unfoldable pub add_lookup : PluginManager → Lookup → Outcome
unfolding register
add_lookup m not_found = unchanged m
add_lookup m unreadable = unchanged m
add_lookup m (found path pkg) = register m path pkg

unfoldable pub add : PluginManager → (List ℕ → Lookup) → List ℕ → Outcome
unfolding add_lookup
add m files [] = unchanged m
add m files (c ∷ cs) = add_lookup m (files (c ∷ cs))
