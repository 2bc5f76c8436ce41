-- ===== src/Plugins/Registry.antt =====
-- pluginManager.ts: the Map of plugins and its copy in the storage, over any operations.
use matterbridge.Base.{
  ℕ, ◌≡◌, refl, inl, inr, Bool, true, false, List, [], ◌∷◌, map, Bool-cases, Option-cases, All,
  HasDistinctKeys, map_delete-HasDistinctKeys, map_get, map_has, map_set-HasDistinctKeys,
  map_values, map_set-All, map_delete-All, map_get-All,
}
use matterbridge.Plugins.{
  Plugin, Lookup, not_found, unreadable, found, PluginManager, PluginResult, returned_null, threw,
  PluginEvent, Outcome, to_storage_plugin, saved, finished, PluginChange, switch, drop_plugin,
  on_package, on_lookup, on_registered, on_plugin, enable, disable, remove, new_plugin, register,
  add_lookup, add,
}

abbrev pub IsOwn : List ℕ × Plugin → Type 0
IsOwn e = e.1.name ≡ e.0

-- With a node context, every plugin stands under its own name, none twice, and the storage holds
-- exactly these plugins in their order.
pub record IsSynced (m : PluginManager) : Type 0 where
  pub distinct : HasDistinctKeys m.plugins
  pub own_names : All IsOwn m.plugins
  pub in_storage : m.storage ≡ map to_storage_plugin (map_values m.plugins)
  pub context : m.has_context ≡ true

finished-IsSynced :
    (on_error : PluginResult) (m : PluginManager) (p : Plugin) (event : PluginEvent)
    → HasDistinctKeys m.plugins
    → All IsOwn m.plugins
    → m.has_context ≡ true
    → IsSynced (finished on_error m p event).manager
unfolding finished saved
finished-IsSynced on_error m p event distinct own context =
    rw context (record { distinct = distinct; own_names = own; in_storage = refl; context = refl })

-- A change keeps the Map and the storage in step, for a plugin that stands under the key.
abbrev KeepsSync : PluginChange → Type 0
KeepsSync change =
    (on_error : PluginResult) (m : PluginManager) (key : List ℕ) (p : Plugin)
    → p.name ≡ key
    → IsSynced m
    → IsSynced (change on_error m key p).manager

switch-KeepsSync : (enabled : Bool) → KeepsSync (switch enabled)
unfolding switch
switch-KeepsSync enabled on_error m key p own v =
    finished-IsSynced on_error _ _ _
      (map_set-HasDistinctKeys key (record p { enabled = enabled }) m.plugins v.distinct)
      (map_set-All IsOwn key (record p { enabled = enabled }) m.plugins own v.own_names) v.context

drop_plugin-KeepsSync : KeepsSync drop_plugin
unfolding drop_plugin
drop_plugin-KeepsSync on_error m key p own v =
    finished-IsSynced on_error _ _ _ (map_delete-HasDistinctKeys key m.plugins v.distinct)
      (map_delete-All IsOwn key m.plugins v.own_names) v.context

module _ (change : PluginChange) (keeps : KeepsSync change) where
  on_lookup-IsSynced :
      (m : PluginManager) (lookup : Lookup)
      → IsSynced m
      → IsSynced (on_lookup change m lookup).manager
  unfolding on_lookup on_package
  on_lookup-IsSynced m not_found v = v
  on_lookup-IsSynced m unreadable v = v
  on_lookup-IsSynced m (found path pkg) v =
      elim (Option-cases (map_get pkg.package_name m.plugins)) [
        | inl e ↦ rw e v
        | inr (p, e) ↦ rw e (
            keeps returned_null m pkg.package_name p
              (map_get-All IsOwn pkg.package_name p m.plugins v.own_names e) v)
      ]

  on_plugin-IsSynced :
      (m : PluginManager) (files : List ℕ → Lookup) (name : List ℕ)
      → IsSynced m
      → IsSynced (on_plugin change m files name).manager
  unfolding on_plugin on_registered
  on_plugin-IsSynced m files [] v = v
  on_plugin-IsSynced m files (c ∷ cs) v = elim (Option-cases (map_get (c ∷ cs) m.plugins)) [
    | inl e ↦ rw e (on_lookup-IsSynced m (files (c ∷ cs)) v)
    | inr (p, e) ↦
        rw e (keeps threw m (c ∷ cs) p (map_get-All IsOwn (c ∷ cs) p m.plugins v.own_names e) v)
  ]

add_lookup-IsSynced :
    (m : PluginManager) (lookup : Lookup) → IsSynced m → IsSynced (add_lookup m lookup).manager
unfolding add_lookup register new_plugin
add_lookup-IsSynced m not_found v = v
add_lookup-IsSynced m unreadable v = v
add_lookup-IsSynced m (found path pkg) v = elim (Bool-cases (map_has pkg.package_name m.plugins)) [
  | inl e ↦ rw e v
  | inr e ↦ rw e (
      finished-IsSynced returned_null _ _ _
        (map_set-HasDistinctKeys pkg.package_name (new_plugin path pkg) m.plugins v.distinct)
        (map_set-All IsOwn pkg.package_name (new_plugin path pkg) m.plugins refl v.own_names)
        v.context)
]

-- The operations of the manager, each on a name or path.
pub data PluginOperation : Type 0 where
  to_enable to_disable to_remove to_add : (name : List ℕ) → PluginOperation

abbrev pub operate : PluginManager → (List ℕ → Lookup) → PluginOperation → Outcome
operate m files (to_enable name) = enable m files name
operate m files (to_disable name) = disable m files name
operate m files (to_remove name) = remove m files name
operate m files (to_add name) = add m files name

-- Each operation finds the files as they are then.
abbrev pub operate_all : PluginManager → List ((List ℕ → Lookup) × PluginOperation) → PluginManager
operate_all m [] = m
operate_all m (o ∷ os) = operate_all (operate m o.0 o.1).manager os

pub operate-IsSynced :
    (m : PluginManager) (files : List ℕ → Lookup) (o : PluginOperation)
    → IsSynced m
    → IsSynced (operate m files o).manager
unfolding enable disable remove add
operate-IsSynced m files (to_enable name) v =
    on_plugin-IsSynced (switch true) (switch-KeepsSync true) m files name v
operate-IsSynced m files (to_disable name) v =
    on_plugin-IsSynced (switch false) (switch-KeepsSync false) m files name v
operate-IsSynced m files (to_remove name) v =
    on_plugin-IsSynced drop_plugin drop_plugin-KeepsSync m files name v
operate-IsSynced m files (to_add []) v = v
operate-IsSynced m files (to_add (c ∷ cs)) v = add_lookup-IsSynced m (files (c ∷ cs)) v

-- With a node context, any sequence of enabling, disabling, removing and adding plugins, whatever
-- files it finds, keeps the storage in step with the Map: the storage holds exactly the registered
-- plugins in their order, each stands under its own name, and none stands twice.
pub operate_all-IsSynced :
    (m : PluginManager) (os : List ((List ℕ → Lookup) × PluginOperation))
    → IsSynced m
    → IsSynced (operate_all m os)
operate_all-IsSynced m [] v = v
operate_all-IsSynced m (o ∷ os) v =
    operate_all-IsSynced (operate m o.0 o.1).manager os (operate-IsSynced m o.0 o.1 v)
