-- ===== src/Plugins/Switching.antt =====
-- pluginManager.ts: what enabling and disabling a registered plugin does, and what it returns, emits
-- or throws.
use matterbridge.Base.{
  ℕ, ◌≡◌, refl, sym, ap, subst, ◌∙◌, ◌≢◌, inl, inr, Bool, true, false, none, some, List, [], ◌∷◌,
  map, if◌then◌else◌, Bool-cases, map_get, map_get-map_set, map_set, map_values, same_text,
  same_text, map_get, map_set, map_values, same_text,
}
use matterbridge.Plugins.{
  Plugin, Package, Lookup, found, PluginManager, PluginResult, returned, returned_null, threw,
  to_storage_plugin, on_lookup, on_package, PluginEvent, emits_enabled, emits_disabled, Outcome,
  saved, finished, PluginChange, switch, on_registered, on_plugin, enable, disable,
}

-- The plugin that a name leads to: the registered one of that name, or else that of the name in the
-- package.json that is found there. The operation throws on an error for the first, and returns null
-- for the second.
pub data LeadsTo (m : PluginManager) (files : List ℕ → Lookup) (name : List ℕ)
    : List ℕ → Plugin → PluginResult → Type 0 where
  by_name :
      (p : Plugin) → name ≢ [] → map_get name m.plugins ≡ some p → LeadsTo m files name name p threw
  by_package :
      (path : List ℕ) (pkg : Package) (p : Plugin)
      → name ≢ []
      → map_get name m.plugins ≡ none
      → files name ≡ found path pkg
      → map_get pkg.package_name m.plugins ≡ some p
      → LeadsTo m files name pkg.package_name p returned_null

-- How an operation ends that has switched a plugin to a value.
pub record IsSwitched (m : PluginManager) (key : List ℕ) (p : Plugin) (on_error : PluginResult)
    (enabled : Bool) (o : Outcome) : Type 0 where
  pub ends :
      o.result ≡ (if m.has_context then returned (record p { enabled = enabled }) else on_error)
  pub emits : o.events ≡ (
      if m.has_context
      then (if enabled then emits_enabled p.name else emits_disabled p.name) ∷ []
      else [])
  pub switched :
      (k : List ℕ)
      → map_get k o.manager.plugins
        ≡ (if same_text key k then some (record p { enabled = enabled }) else map_get k m.plugins)
  pub stored :
      o.manager.storage
      ≡ (if m.has_context then map to_storage_plugin (map_values o.manager.plugins) else m.storage)

finished_lem :
    (on_error : PluginResult) (m : PluginManager) (p : Plugin) (event : PluginEvent)
    → let o = finished on_error m p event in
      (o.result ≡ (if m.has_context then returned p else on_error))
      × (o.events ≡ (if m.has_context then event ∷ [] else []))
      × (o.manager.plugins ≡ m.plugins)
      × (o.manager.storage ≡ (
          if m.has_context
          then map to_storage_plugin (map_values o.manager.plugins)
          else m.storage))
unfolding finished saved
finished_lem on_error m p event = elim (Bool-cases m.has_context) [
  | inl e ↦ rw e (refl, refl, refl, refl)
  | inr e ↦ rw e (refl, refl, refl, refl)
]

switch-IsSwitched :
    (m : PluginManager) (key : List ℕ) (p : Plugin) (on_error : PluginResult) (enabled : Bool)
    → IsSwitched m key p on_error enabled (switch enabled on_error m key p)
unfolding switch
switch-IsSwitched m key p on_error enabled =
    let p' = record p { enabled = enabled } in
    let m' = record m { plugins = map_set key p' m.plugins } in
    let (r, e, k, t) =
      finished_lem on_error m' p'
        (if enabled then emits_enabled p.name else emits_disabled p.name) in
    record {
      ends = r;
      emits = e;
      switched = λ x. ap (map_get x) k ∙ map_get-map_set key x p' m.plugins;
      stored = t;
    }

on_plugin_lem :
    (change : PluginChange) (m : PluginManager) (files : List ℕ → Lookup) (name key : List ℕ)
    (p : Plugin) (on_error : PluginResult)
    → LeadsTo m files name key p on_error
    → on_plugin change m files name ≡ change on_error m key p
unfolding on_plugin on_registered on_lookup on_package
on_plugin_lem change m files [] _ _ _ (by_name p h e) = absurd (h refl)
on_plugin_lem change m files (c ∷ cs) _ _ _ (by_name p h e) = rw e refl
on_plugin_lem change m files [] _ _ _ (by_package path pkg p h e f g) = absurd (h refl)
on_plugin_lem change m files (c ∷ cs) _ _ _ (by_package path pkg p h e f g) = rw (e, f, g) refl

-- Enabling or disabling by a name or path that leads to a registered plugin switches it in the Map and
-- leaves the plugin of every other name. With a node context the storage then holds the plugins of
-- the Map, the event is emitted and the plugin is returned; without one the storage is as it was and
-- nothing is emitted, although the plugin is switched: the call throws for the name of a plugin, and
-- returns null for the path of one.
pub enable-IsSwitched :
    (m : PluginManager) (files : List ℕ → Lookup) (name key : List ℕ) (p : Plugin)
    (on_error : PluginResult)
    → LeadsTo m files name key p on_error
    → IsSwitched m key p on_error true (enable m files name)
      × IsSwitched m key p on_error false (disable m files name)
unfolding enable disable
enable-IsSwitched m files name key p on_error h = (
  subst (IsSwitched m key p on_error true)
      (sym (on_plugin_lem (switch true) m files name key p on_error h))
      (switch-IsSwitched m key p on_error true),
  subst (IsSwitched m key p on_error false)
      (sym (on_plugin_lem (switch false) m files name key p on_error h))
      (switch-IsSwitched m key p on_error false),
)
