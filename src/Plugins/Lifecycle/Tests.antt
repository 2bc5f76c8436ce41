-- ===== src/Plugins/Lifecycle/Tests.antt =====
-- The life of a plugin whose configuration fails, and the theorems of the life cycle there.
use matterbridge.Base.{◌≡◌, refl, Bool, true, false, ◌&&◌, List, [], ◌∷◌, if◌then◌else◌}
use matterbridge.Plugins.Lifecycle.{Script, exports, shutdown}
use matterbridge.Plugins.Lifecycle.RoundTrip.{unloaded_plugin, shutdown-steps}
use matterbridge.Plugins.Lifecycle.Phases.{
  IsCoherent, LifecycleCall, call_load, call_start, call_configure, call_shutdown, steps,
  steps-IsCoherent,
}

-- A script in which nothing throws.
abbrev smooth : Bool → Script
smooth ready = record {
  on_load = exports ready true;
  start_throws = false;
  config_saves = true;
  configure_throws = false;
  shutdown_throws = false;
  removal_throws = false;
}

abbrev failing : Script
failing = record {
  on_load = exports true true;
  start_throws = false;
  config_saves = true;
  configure_throws = true;
  shutdown_throws = false;
  removal_throws = true;
}

abbrev calls : List (Script × LifecycleCall)
calls =
    (failing, call_load true true)
    ∷ (smooth true, call_configure)
    ∷ (failing, call_shutdown true false)
    ∷ (smooth false, call_start true)
    ∷ []

steps-IsCoherent_example : IsCoherent (steps (unloaded_plugin true) calls)
steps-IsCoherent_example = steps-IsCoherent (unloaded_plugin true) calls (refl, refl, refl)

-- A plugin that is loaded and started and failed in configure.
abbrev failed_calls : List (Script × LifecycleCall)
failed_calls = (failing, call_load true true) ∷ []

shutdown-steps_example :
    let p = steps (unloaded_plugin true) failed_calls in
    (shutdown p (smooth true) true true ≡ (if p.loaded then unloaded_plugin p.is_enabled else p))
    × (shutdown p (smooth true) true false
        ≡ (if p.loaded && p.started then unloaded_plugin p.is_enabled else p))
shutdown-steps_example = shutdown-steps true failed_calls (smooth true) true refl refl
