-- ===== src/Plugins/Messages.antt =====
-- pluginManager.ts: the messages of other threads on the Map of the plugins. The messages on the life of
-- a plugin, its schema, configuration, versions and the log level are left out, as is the live state of
-- a plugin: what loading does to a plugin once its package was installed is an argument, and shutting it
-- down before it is removed changes only its live state. Each message is handled before the next.
pub mod Synced
pub mod Tests
use matterbridge.Base.{
  ℕ, Bool, true, false, ◌&&◌, ◌||◌, Option, none, some, List, [], ◌∷◌, ◌++◌, map, ◌==◌,
  if◌then◌else◌, length, map_get, map_has, map_set, map_values, same_text, starts_with, within,
  starts_with, same_text, map_get, map_has, map_set, map_values, same_text, starts_with, within,
}
use matterbridge.Plugins.{
  Plugin, StoragePlugin, PluginManager, Lookup, PluginResult, returned, returned_null, threw,
  PluginEvent, Outcome, to_storage_plugin, saved, enable, disable, remove, add,
}

-- The requests of type WorkerMessage.
pub data PluginRequest : Type 0 where
  plugins_length plugins_size plugins_storagepluginarray plugins_apipluginarray : PluginRequest
  plugins_has plugins_get : (name : List ℕ) → PluginRequest
  plugins_set : Plugin → PluginRequest
  plugins_add plugins_remove plugins_enable plugins_disable : (name : List ℕ) → PluginRequest

-- An ApiPlugin is the plugin that it copies the fields of.
pub data PluginResponse : Type 0 where
  length_is size_is : ℕ → PluginResponse
  has_is success_is : Bool → PluginResponse
  plugin_is : Option Plugin → PluginResponse
  storage_plugins_are : List StoragePlugin → PluginResponse
  plugins_are : List Plugin → PluginResponse

-- The state after a message, what is responded, if anything is, and what is emitted.
pub record Handled : Type 0 where
  pub manager : PluginManager
  pub response : Option PluginResponse
  pub events : List PluginEvent

abbrev pub with_response : PluginManager → PluginResponse → Handled
with_response m response = record { manager = m; response = some response; events = [] }

unfoldable pub set_plugin : Plugin → PluginManager → PluginManager
set_plugin p m = record m { plugins = map_set p.name p m.plugins }

unfoldable pub plugin_response : PluginResult → Option PluginResponse
plugin_response (returned p) = some (plugin_is (some p))
plugin_response returned_null = some (plugin_is none)
plugin_response threw = none

unfoldable pub success_response : PluginResult → Option PluginResponse
success_response (returned p) = some (success_is true)
success_response returned_null = some (success_is false)
success_response threw = none

abbrev pub handled : (PluginResult → Option PluginResponse) → Outcome → Handled
handled respond o = record { manager = o.manager; response = respond o.result; events = o.events }

unfoldable pub handle_request : PluginManager → (List ℕ → Lookup) → PluginRequest → Handled
unfolding to_storage_plugin set_plugin plugin_response success_response enable disable remove add
handle_request m files plugins_length = with_response m (length_is (length m.plugins))
handle_request m files plugins_size = with_response m (size_is (length m.plugins))
handle_request m files (plugins_has name) = with_response m (has_is (map_has name m.plugins))
handle_request m files (plugins_get name) = with_response m (plugin_is (map_get name m.plugins))
handle_request m files (plugins_set p) = with_response (set_plugin p m) (plugin_is (some p))
handle_request m files plugins_storagepluginarray =
    with_response m (storage_plugins_are (map to_storage_plugin (map_values m.plugins)))
handle_request m files plugins_apipluginarray = with_response m (plugins_are (map_values m.plugins))
handle_request m files (plugins_add name) = handled plugin_response (add m files name)
handle_request m files (plugins_remove name) = handled success_response (remove m files name)
handle_request m files (plugins_enable name) = handled plugin_response (enable m files name)
handle_request m files (plugins_disable name) = handled plugin_response (disable m files name)

-- A manager_spawn_response, for a package that was to be installed or uninstalled.
pub data PackageCommand : Type 0 where
  install uninstall : PackageCommand

pub record SpawnResponse : Type 0 where
  pub package_command : PackageCommand
  pub success : Bool
  pub package_name : List ℕ

unfoldable pub ends_with : List ℕ → List ℕ → Bool
ends_with suffix [] = same_text suffix []
ends_with suffix (c ∷ cs) = same_text suffix (c ∷ cs) || ends_with suffix cs

unfoldable pub starts_with_digit : List ℕ → Bool
starts_with_digit [] = false
starts_with_digit (c ∷ cs) = within b'0' b'9' c

-- `replace(/-\d.*$/, '')` and `replace(/@.*$/, '')`, for a name of one line.
unfoldable pub without_version : List ℕ → List ℕ
unfolding starts_with_digit
without_version [] = []
without_version (c ∷ cs) =
    let rest = without_version cs in if c == b'-' && starts_with_digit cs then [] else c ∷ rest

unfoldable pub without_tag : List ℕ → List ℕ
without_tag [] = []
without_tag (c ∷ cs) = let rest = without_tag cs in if c == b'@' then [] else c ∷ rest

-- ".tgz", "matterbridge" and "matterbridge-".
abbrev pub archive : List ℕ
archive = b'.' ∷ b't' ∷ b'g' ∷ b'z' ∷ []

abbrev pub matterbridge_name : List ℕ
matterbridge_name =
    b'm' ∷ b'a' ∷ b't' ∷ b't' ∷ b'e' ∷ b'r' ∷ b'b' ∷ b'r' ∷ b'i' ∷ b'd' ∷ b'g' ∷ b'e' ∷ []

-- `if (!this.has(name)) await this.add(name)`.
unfoldable pub added_unless_there :
    PluginManager → (List ℕ → Lookup) → List ℕ → PluginManager × List PluginEvent
unfolding add
added_unless_there m files name =
    if map_has name m.plugins
    then (m, [])
    else ((add m files name).manager, (add m files name).events)

-- `if (plugin) plugin.tarballPath = path`, for the plugin of the name.
unfoldable pub tarball_set :
    List ℕ → Option (List ℕ) → PluginManager → Option Plugin → PluginManager
tarball_set name path m none = m
tarball_set name path m (some p) = record m {
  plugins = map_set name (record p { tarball_path = path }) m.plugins;
}

-- saveToStorage, which throws without a node context.
unfoldable pub saved_if_context : PluginManager → PluginManager
unfolding saved
saved_if_context m = if m.has_context then saved m else m

-- What `if (!plugin.loaded) await this.load(plugin)` does to the fields of a plugin: it leaves them, or
-- fails after it changed them, or changes them and saves the Map.
pub data LoadEffect : Type 0 where
  leaves : LoadEffect
  fails saves : Plugin → LoadEffect

-- The manager after the effect on the plugin of a name.
unfoldable pub with_effect : List ℕ → PluginManager → LoadEffect → PluginManager
unfolding saved_if_context
with_effect name m leaves = m
with_effect name m (fails p) = record m { plugins = map_set name p m.plugins }
with_effect name m (saves p) = saved_if_context (record m { plugins = map_set name p m.plugins })

unfoldable pub loaded_after :
    (Plugin → LoadEffect) → List ℕ → PluginManager → Option Plugin → PluginManager
unfolding with_effect
loaded_after load name m none = m
loaded_after load name m (some p) = with_effect name m (load p)

-- The plugin that was installed is added, saved with its tarball, and loaded. Without a node context
-- saving throws, so that it is not loaded.
unfoldable pub register_installed :
    PluginManager
    → (List ℕ → Lookup)
    → (Plugin → LoadEffect)
    → List ℕ
    → Option (List ℕ)
    → PluginManager × List PluginEvent
unfolding added_unless_there tarball_set saved_if_context loaded_after
register_installed m files load name path =
    let (added, events) = added_unless_there m files name in
    let saved = saved_if_context (tarball_set name path added (map_get name added.plugins)) in
    (
      if saved.has_context
          then loaded_after load name saved (map_get name saved.plugins)
          else saved,
      events,
    )

unfoldable pub on_installed :
    PluginManager
    → (List ℕ → Lookup)
    → (Plugin → LoadEffect)
    → List ℕ
    → PluginManager × List PluginEvent
unfolding ends_with without_version without_tag starts_with register_installed
on_installed m files load package_name =
    if ends_with archive package_name
    then if starts_with (matterbridge_name ++ (b'-' ∷ [])) package_name
      then register_installed m files load (without_version package_name) (some package_name)
      else (m, [])
    else if same_text (without_tag package_name) matterbridge_name
    then (m, [])
    else register_installed m files load (without_tag package_name) none

unfoldable pub on_uninstalled :
    PluginManager → (List ℕ → Lookup) → List ℕ → PluginManager × List PluginEvent
unfolding remove
on_uninstalled m files package_name =
    if map_has package_name m.plugins
    then ((remove m files package_name).manager, (remove m files package_name).events)
    else (m, [])

unfoldable pub on_spawned :
    PluginManager
    → (List ℕ → Lookup)
    → (Plugin → LoadEffect)
    → PackageCommand
    → Bool
    → List ℕ
    → PluginManager × List PluginEvent
unfolding on_installed on_uninstalled
on_spawned m files load command false package_name = (m, [])
on_spawned m files load install true package_name = on_installed m files load package_name
on_spawned m files load uninstall true package_name = on_uninstalled m files package_name

-- What the handler gets: a request, or the response that a package manager is done.
pub data PluginMessage : Type 0 where
  worker_request : PluginRequest → PluginMessage
  spawn_response : SpawnResponse → PluginMessage

unfoldable pub msg_handler :
    PluginManager → (List ℕ → Lookup) → (Plugin → LoadEffect) → PluginMessage → Handled
unfolding handle_request on_spawned
msg_handler m files load (worker_request q) = handle_request m files q
msg_handler m files load (spawn_response r) =
    let (manager, events) = on_spawned m files load r.package_command r.success r.package_name in
    record { manager = manager; response = none; events = events }
