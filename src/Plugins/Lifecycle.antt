-- ===== src/Plugins/Lifecycle.antt =====
-- pluginManager.ts: load, start, configure and shutdown of one plugin, one call after the other. What
-- the plugin's code and the files do in a call is an argument, the script. The descriptive fields that
-- load copies from the package.json, the events and the returned values are left out; an undefined
-- flag is false.
pub mod Phases
pub mod RoundTrip
pub mod Tests
use matterbridge.Base.{ℕ, Bool, true, false, ◌&&◌, not, Option, none, some, if◌then◌else◌}

-- The flags of a MatterbridgePlatform.
pub record Platform : Type 0 where
  pub is_ready : Bool
  pub is_loaded : Bool
  pub is_started : Bool
  pub is_configured : Bool
  pub is_shutting_down : Bool

-- The live part of a plugin.
pub record LivePlugin : Type 0 where
  pub is_enabled : Bool
  pub locked : Bool
  pub error : Bool
  pub loaded : Bool
  pub started : Bool
  pub configured : Bool
  pub platform : Option Platform
  pub registered_devices : Option ℕ

-- What loading finds: an error before there is a platform, no default export, or a platform, after
-- which saveToStorage succeeds or throws.
pub data LoadScript : Type 0 where
  import_throws no_default_export : LoadScript
  exports : (is_ready storage_saves : Bool) → LoadScript

pub record Script : Type 0 where
  pub on_load : LoadScript
  pub start_throws : Bool
  pub config_saves : Bool
  pub configure_throws : Bool
  pub shutdown_throws : Bool
  pub removal_throws : Bool

abbrev pub failed : LivePlugin → LivePlugin
failed p = record p { error = true }

unfoldable pub configure_platform : LivePlugin → Script → Option Platform → LivePlugin
configure_platform p s none = p
configure_platform p s (some f) =
    if p.configured
    then p
    else if s.configure_throws
    then failed p
    else record p { configured = true; platform = some (record f { is_configured = true }) }

unfoldable pub configure : LivePlugin → Script → LivePlugin
unfolding configure_platform
configure p s =
    if not p.loaded then p else if not p.started then p else configure_platform p s p.platform

-- The end of start: saveConfigFromPlugin, which may throw, and configure if it is asked for.
unfoldable pub after_start : LivePlugin → Script → (configures : Bool) → LivePlugin
unfolding configure
after_start p s configures =
    if s.config_saves then (if configures then configure p s else p) else failed p

unfoldable pub start_platform :
    LivePlugin → Script → (configures : Bool) → Option Platform → LivePlugin
unfolding after_start
start_platform p s configures none = p
start_platform p s configures (some f) =
    if p.started
    then p
    else if s.start_throws
    then failed p
    else after_start (record p { started = true; platform = some (record f { is_started = true }) })
        s configures

unfoldable pub start : LivePlugin → Script → (configures : Bool) → LivePlugin
unfolding start_platform
start p s configures = if not p.loaded then p else start_platform p s configures p.platform

abbrev pub new_platform : Bool → Platform
new_platform ready = record {
  is_ready = ready;
  is_loaded = true;
  is_started = false;
  is_configured = false;
  is_shutting_down = false;
}

abbrev pub loaded_plugin : LivePlugin → Bool → LivePlugin
loaded_plugin p ready = record p {
  loaded = true;
  platform = some (new_platform ready);
  registered_devices = some 0;
}

-- The end of load: start without configure, and configure, if they are asked for.
unfoldable pub after_load : LivePlugin → Script → (starts configures : Bool) → LivePlugin
unfolding start configure
after_load p s starts configures =
    let begun = (if starts then start p s false else p) in
    if configures then configure begun s else begun

unfoldable pub import_plugin :
    LivePlugin → Script → (starts configures : Bool) → LoadScript → LivePlugin
unfolding after_load
import_plugin p s starts configures import_throws = failed p
import_plugin p s starts configures no_default_export = failed p
import_plugin p s starts configures (exports ready saves) =
    if saves
    then after_load (loaded_plugin p ready) s starts configures
    else failed (loaded_plugin p ready)

unfoldable pub load_platform :
    LivePlugin → Script → (starts configures : Bool) → Option Platform → LivePlugin
unfolding import_plugin
load_platform p s starts configures (some f) = p
load_platform p s starts configures none = import_plugin p s starts configures s.on_load

unfoldable pub load : LivePlugin → Script → (starts configures : Bool) → LivePlugin
unfolding load_platform
load p s starts configures =
    if not p.is_enabled then p else load_platform p s starts configures p.platform

-- The plugin after its platform is dropped; removing its endpoints may throw.
unfoldable pub dropped : LivePlugin → (removal_fails : Bool) → LivePlugin
dropped p removal_fails = record {
  is_enabled = p.is_enabled;
  locked = false;
  error = false;
  loaded = false;
  started = false;
  configured = false;
  platform = none;
  registered_devices = if removal_fails then p.registered_devices else none;
}

unfoldable pub shutdown_platform :
    LivePlugin → Script → (removes_all : Bool) → Option Platform → LivePlugin
unfolding dropped
shutdown_platform p s removes_all none = p
shutdown_platform p s removes_all (some f) =
    if s.shutdown_throws
    then record p { platform = some (record f { is_shutting_down = true }) }
    else dropped p (removes_all && s.removal_throws)

unfoldable pub shutdown : LivePlugin → Script → (removes_all force : Bool) → LivePlugin
unfolding shutdown_platform
shutdown p s removes_all force =
    if not p.loaded && not force
    then p
    else if not p.started && not force
    then p
    else shutdown_platform p s removes_all p.platform
