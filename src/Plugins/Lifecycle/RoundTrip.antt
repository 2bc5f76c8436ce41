-- ===== src/Plugins/Lifecycle/RoundTrip.antt =====
-- pluginManager.ts: shutting a plugin down, after any calls.
use matterbridge.Base.{
  ◌≡◌, refl, Bool, true, false, ◌&&◌, Option, none, some, List, arith, if◌then◌else◌,
}
use matterbridge.Plugins.Lifecycle.{
  Platform, LivePlugin, Script, dropped, shutdown_platform, shutdown,
}
use matterbridge.Plugins.Lifecycle.Phases.{
  Phase, IsCoherent, LifecycleCall, steps, steps-IsCoherent,
}

-- A plugin that is registered and was never loaded.
abbrev pub unloaded_plugin : Bool → LivePlugin
unloaded_plugin enabled = record {
  is_enabled = enabled;
  locked = false;
  error = false;
  loaded = false;
  started = false;
  configured = false;
  platform = none;
  registered_devices = none;
}

shutdown_platform_lem :
    (p : LivePlugin) (s : Script) (removes_all : Bool) (o : Option Platform)
    → s.shutdown_throws ≡ false
    → s.removal_throws ≡ false
    → Phase p.loaded p.started p.configured o
    → shutdown_platform p s removes_all o ≡ (if p.loaded then unloaded_plugin p.is_enabled else p)
unfolding shutdown_platform dropped
shutdown_platform_lem p s removes_all none h k v = rw v.0 refl
shutdown_platform_lem p s true (some f) h k v = rw (h, k, v.0) refl
shutdown_platform_lem p s false (some f) h k v = rw (h, v.0) refl

forced_lem :
    (p : LivePlugin) (s : Script) (removes_all : Bool)
    → s.shutdown_throws ≡ false
    → s.removal_throws ≡ false
    → IsCoherent p
    → shutdown p s removes_all true ≡ (if p.loaded then unloaded_plugin p.is_enabled else p)
unfolding shutdown
forced_lem p s removes_all h k v =
    ground (arith, shutdown_platform_lem p s removes_all p.platform h k v)

unforced_lem :
    (p : LivePlugin) (s : Script) (removes_all : Bool)
    → s.shutdown_throws ≡ false
    → s.removal_throws ≡ false
    → IsCoherent p
    → shutdown p s removes_all false
      ≡ (if p.loaded && p.started then unloaded_plugin p.is_enabled else p)
unfolding shutdown
unforced_lem p s removes_all h k v =
    ground (arith, shutdown_platform_lem p s removes_all p.platform h k v)

-- Whatever calls were made on a plugin since it was registered, and whatever failed in them: where
-- neither its onShutdown nor the removal of its endpoints throws, shutting it down by force gives the
-- plugin as it was registered if it is loaded, and otherwise changes nothing; and without force the
-- same if it is loaded and started, with or without its endpoints.
pub shutdown-steps :
    (enabled : Bool) (calls : List (Script × LifecycleCall)) (s : Script) (removes_all : Bool)
    → s.shutdown_throws ≡ false
    → s.removal_throws ≡ false
    → let p = steps (unloaded_plugin enabled) calls in
      (shutdown p s removes_all true ≡ (if p.loaded then unloaded_plugin p.is_enabled else p))
      × (shutdown p s removes_all false
          ≡ (if p.loaded && p.started then unloaded_plugin p.is_enabled else p))
shutdown-steps enabled calls s removes_all h k =
    let p = steps (unloaded_plugin enabled) calls in
    let v = steps-IsCoherent (unloaded_plugin enabled) calls (refl, refl, refl) in
    (forced_lem p s removes_all h k v, unforced_lem p s removes_all h k v)
