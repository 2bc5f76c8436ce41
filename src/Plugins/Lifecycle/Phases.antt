-- ===== src/Plugins/Lifecycle/Phases.antt =====
-- pluginManager.ts: the phases of a plugin, over any calls.
use matterbridge.Base.{
  ◌≡◌, refl, sym, Bool, true, false, ◌&&◌, not, Option, none, some, List, [], ◌∷◌, arith,
  if◌then◌else◌, if-intro,
}
use matterbridge.Plugins.Lifecycle.{
  Platform, LivePlugin, LoadScript, import_throws, no_default_export, exports, Script,
  configure_platform, configure, after_start, start_platform, start, loaded_plugin, after_load,
  import_plugin, load_platform, load, dropped, shutdown_platform, shutdown,
}

-- How the flags of a plugin stand to its platform: without one none is set; with one it is loaded,
-- the platform has the same flags, and it is configured only if it is started.
abbrev pub Phase : (loaded started configured : Bool) → Option Platform → Type 0
Phase loaded started configured none = (loaded ≡ false) × (started ≡ false) × (configured ≡ false)
Phase loaded started configured (some f) =
    (loaded ≡ true)
    × (f.is_loaded ≡ true)
    × (f.is_started ≡ started)
    × (f.is_configured ≡ configured)
    × ((configured && not started) ≡ false)

abbrev pub IsCoherent : LivePlugin → Type 0
IsCoherent p = Phase p.loaded p.started p.configured p.platform

configure_platform-IsCoherent :
    (p : LivePlugin) (s : Script) (o : Option Platform)
    → Phase p.loaded p.started p.configured o
    → p.started ≡ true
    → IsCoherent p
    → IsCoherent (configure_platform p s o)
unfolding configure_platform
configure_platform-IsCoherent p s none v h w = w
configure_platform-IsCoherent p s (some f) v h w =
    if-intro IsCoherent p.configured (λ t. w)
      (λ t.
        if-intro IsCoherent s.configure_throws (λ u. w) (λ u. (v.0, v.1, v.2, refl, ground arith)))

true_of_not : (b : Bool) → not b ≡ false → b ≡ true
true_of_not b h = ground arith

configure-IsCoherent : (p : LivePlugin) (s : Script) → IsCoherent p → IsCoherent (configure p s)
unfolding configure
configure-IsCoherent p s v =
    if-intro IsCoherent (not p.loaded) (λ t. v)
      (λ t.
        if-intro IsCoherent (not p.started) (λ u. v)
          (λ u. configure_platform-IsCoherent p s p.platform v (true_of_not p.started u) v))

after_start-IsCoherent :
    (p : LivePlugin) (s : Script) (configures : Bool)
    → IsCoherent p
    → IsCoherent (after_start p s configures)
unfolding after_start
after_start-IsCoherent p s configures v =
    if-intro IsCoherent s.config_saves
      (λ t. if-intro IsCoherent configures (λ u. configure-IsCoherent p s v) (λ u. v)) (λ t. v)

start_platform-IsCoherent :
    (p : LivePlugin) (s : Script) (configures : Bool) (o : Option Platform)
    → Phase p.loaded p.started p.configured o
    → IsCoherent p
    → IsCoherent (start_platform p s configures o)
unfolding start_platform
start_platform-IsCoherent p s configures none v w = w
start_platform-IsCoherent p s configures (some f) v w =
    if-intro IsCoherent p.started (λ t. w)
      (λ t.
        if-intro IsCoherent s.start_throws (λ u. w)
          (λ u.
            after_start-IsCoherent
              (record p { started = true; platform = some (record f { is_started = true }) }) s
              configures (v.0, v.1, refl, v.3, ground arith)))

start-IsCoherent :
    (p : LivePlugin) (s : Script) (configures : Bool)
    → IsCoherent p
    → IsCoherent (start p s configures)
unfolding start
start-IsCoherent p s configures v =
    if-intro IsCoherent (not p.loaded) (λ t. v)
      (λ t. start_platform-IsCoherent p s configures p.platform v v)

after_load-IsCoherent :
    (p : LivePlugin) (s : Script) (starts configures : Bool)
    → IsCoherent p
    → IsCoherent (after_load p s starts configures)
unfolding after_load
after_load-IsCoherent p s starts configures v =
    let begun =
      if-intro IsCoherent starts {x = start p s false} {y = p} (λ t. start-IsCoherent p s false v)
        (λ t. v) in
    if-intro IsCoherent configures
      (λ t. configure-IsCoherent (if starts then start p s false else p) s begun) (λ t. begun)

import_plugin-IsCoherent :
    (p : LivePlugin) (s : Script) (starts configures : Bool) (script : LoadScript)
    → (p.started ≡ false) × (p.configured ≡ false)
    → IsCoherent p
    → IsCoherent (import_plugin p s starts configures script)
unfolding import_plugin
import_plugin-IsCoherent p s starts configures import_throws h w = w
import_plugin-IsCoherent p s starts configures no_default_export h w = w
import_plugin-IsCoherent p s starts configures (exports ready saves) h w =
    let v : IsCoherent (loaded_plugin p ready) = (refl, refl, sym h.0, sym h.1, ground arith) in
    if-intro IsCoherent saves
      (λ t. after_load-IsCoherent (loaded_plugin p ready) s starts configures v) (λ t. v)

load_platform-IsCoherent :
    (p : LivePlugin) (s : Script) (starts configures : Bool) (o : Option Platform)
    → Phase p.loaded p.started p.configured o
    → IsCoherent p
    → IsCoherent (load_platform p s starts configures o)
unfolding load_platform
load_platform-IsCoherent p s starts configures (some f) v w = w
load_platform-IsCoherent p s starts configures none v w =
    import_plugin-IsCoherent p s starts configures s.on_load (v.1, v.2) w

shutdown_platform-IsCoherent :
    (p : LivePlugin) (s : Script) (removes_all : Bool) (o : Option Platform)
    → Phase p.loaded p.started p.configured o
    → IsCoherent p
    → IsCoherent (shutdown_platform p s removes_all o)
unfolding shutdown_platform dropped
shutdown_platform-IsCoherent p s removes_all none v w = w
shutdown_platform-IsCoherent p s removes_all (some f) v w =
    if-intro IsCoherent s.shutdown_throws (λ t. v) (λ t. (refl, refl, refl))

-- The calls on a plugin.
pub data LifecycleCall : Type 0 where
  call_load : (starts configures : Bool) → LifecycleCall
  call_start : (configures : Bool) → LifecycleCall
  call_configure : LifecycleCall
  call_shutdown : (removes_all force : Bool) → LifecycleCall

abbrev pub step : LivePlugin → Script → LifecycleCall → LivePlugin
step p s (call_load starts configures) = load p s starts configures
step p s (call_start configures) = start p s configures
step p s call_configure = configure p s
step p s (call_shutdown removes_all force) = shutdown p s removes_all force

abbrev pub steps : LivePlugin → List (Script × LifecycleCall) → LivePlugin
steps p [] = p
steps p (c ∷ cs) = steps (step p c.0 c.1) cs

step-IsCoherent :
    (p : LivePlugin) (s : Script) (c : LifecycleCall) → IsCoherent p → IsCoherent (step p s c)
unfolding load shutdown
step-IsCoherent p s (call_load starts configures) v =
    if-intro IsCoherent (not p.is_enabled) (λ t. v)
      (λ t. load_platform-IsCoherent p s starts configures p.platform v v)
step-IsCoherent p s (call_start configures) v = start-IsCoherent p s configures v
step-IsCoherent p s call_configure v = configure-IsCoherent p s v
step-IsCoherent p s (call_shutdown removes_all force) v =
    if-intro IsCoherent (not p.loaded && not force) (λ t. v)
      (λ t.
        if-intro IsCoherent (not p.started && not force) (λ u. v)
          (λ u. shutdown_platform-IsCoherent p s removes_all p.platform v v))

-- Whatever calls are made one after the other, and whatever the plugin's code, the storage and the
-- files do in them, the flags of a plugin stay in step with its platform: without a platform it is
-- neither loaded, started nor configured; with one it is loaded, the platform's flags are the
-- plugin's, and it is configured only if it is started.
pub steps-IsCoherent :
    (p : LivePlugin) (cs : List (Script × LifecycleCall)) → IsCoherent p → IsCoherent (steps p cs)
steps-IsCoherent p [] v = v
steps-IsCoherent p (c ∷ cs) v = steps-IsCoherent (step p c.0 c.1) cs (step-IsCoherent p c.0 c.1 v)
