-- ===== src/Plugins/Messages/Synced.antt =====
-- pluginManager.ts: the Map of plugins and its copy in the storage, over any messages.
use matterbridge.Base.{
  ℕ, ◌≡◌, refl, ◌∙◌, Bool, true, false, Option, none, some, List, [], ◌∷◌, ◌++◌, All,
  HasDistinctKeys, map_get, map_has, map_set-HasDistinctKeys, same_text, starts_with, map_set-All,
  starts_with, map_get-All, if-intro, same_text, map_set-HasDistinctKeys, HasDistinctKeys, map_get,
  map_has, same_text, HasDistinctKeys, map_set-HasDistinctKeys, map_set-All, map_get-All,
  starts_with, if-intro,
}
use matterbridge.Plugins.{Plugin, Lookup, PluginManager, PluginEvent, saved}
use matterbridge.Plugins.Registry.{
  IsOwn, IsSynced, to_enable, to_disable, to_remove, to_add, operate-IsSynced,
}
use matterbridge.Plugins.Messages.{
  LoadEffect, leaves, fails, saves, with_effect, loaded_after, PluginRequest, plugins_length,
  plugins_size, plugins_storagepluginarray, plugins_apipluginarray, plugins_has, plugins_get,
  plugins_set, plugins_add, plugins_remove, plugins_enable, plugins_disable, handle_request,
  PackageCommand, install, uninstall, archive, matterbridge_name, without_version, without_tag,
  added_unless_there, tarball_set, saved_if_context, register_installed, on_installed,
  on_uninstalled, on_spawned, PluginMessage, worker_request, spawn_response, msg_handler, ends_with,
}

added_unless_there-IsSynced :
    (m : PluginManager) (files : List ℕ → Lookup) (name : List ℕ)
    → IsSynced m
    → IsSynced (added_unless_there m files name).0
unfolding added_unless_there
added_unless_there-IsSynced m files name v =
    if-intro (λ (r : PluginManager × List PluginEvent). IsSynced r.0) (map_has name m.plugins)
      (λ h. v) (λ h. operate-IsSynced m files (to_add name) v)

-- Saving a manager whose Map is well formed.
saved_if_context-IsSynced :
    (m : PluginManager)
    → HasDistinctKeys m.plugins
    → All IsOwn m.plugins
    → m.has_context ≡ true
    → IsSynced (saved_if_context m)
unfolding saved_if_context saved
saved_if_context-IsSynced m distinct own context =
    rw context (record { distinct = distinct; own_names = own; in_storage = refl; context = refl })

tarball_set-IsSynced :
    (name : List ℕ) (path : Option (List ℕ)) (m : PluginManager) (found : Option Plugin)
    → map_get name m.plugins ≡ found
    → IsSynced m
    → IsSynced (saved_if_context (tarball_set name path m found))
unfolding tarball_set
tarball_set-IsSynced name path m none h v =
    saved_if_context-IsSynced m v.distinct v.own_names v.context
tarball_set-IsSynced name path m (some p) h v =
    saved_if_context-IsSynced _
      (map_set-HasDistinctKeys name (record p { tarball_path = path }) m.plugins v.distinct)
      (map_set-All IsOwn name (record p { tarball_path = path }) m.plugins
        (map_get-All IsOwn name p m.plugins v.own_names h) v.own_names)
      v.context

-- Loading a plugin either leaves its fields, or saves them under its name.
abbrev pub IsSaved : Plugin → LoadEffect → Type 0
IsSaved p leaves = Unit
IsSaved p (fails q) = ⊥
IsSaved p (saves q) = q.name ≡ p.name

abbrev pub LoadsWell : (Plugin → LoadEffect) → Type 0
LoadsWell load = (p : Plugin) → IsSaved p (load p)

with_effect-IsSynced :
    (name : List ℕ) (m : PluginManager) (p : Plugin) (effect : LoadEffect)
    → IsSaved p effect
    → map_get name m.plugins ≡ some p
    → IsSynced m
    → IsSynced (with_effect name m effect)
unfolding with_effect
with_effect-IsSynced name m p leaves h e v = v
with_effect-IsSynced name m p (fails q) h e v = absurd h
with_effect-IsSynced name m p (saves q) h e v =
    saved_if_context-IsSynced _ (map_set-HasDistinctKeys name q m.plugins v.distinct)
      (map_set-All IsOwn name q m.plugins (h ∙ map_get-All IsOwn name p m.plugins v.own_names e)
        v.own_names)
      v.context

loaded_after-IsSynced :
    (load : Plugin → LoadEffect) (name : List ℕ) (m : PluginManager) (found : Option Plugin)
    → LoadsWell load
    → map_get name m.plugins ≡ found
    → IsSynced m
    → IsSynced (loaded_after load name m found)
unfolding loaded_after
loaded_after-IsSynced load name m none h e v = v
loaded_after-IsSynced load name m (some p) h e v = with_effect-IsSynced name m p (load p) (h p) e v

register_installed-IsSynced :
    (m : PluginManager) (files : List ℕ → Lookup) (load : Plugin → LoadEffect) (name : List ℕ)
    (path : Option (List ℕ))
    → LoadsWell load
    → IsSynced m
    → IsSynced (register_installed m files load name path).0
unfolding register_installed
register_installed-IsSynced m files load name path h v =
    let added = (added_unless_there m files name).0 in
    let kept = saved_if_context (tarball_set name path added (map_get name added.plugins)) in
    let w =
      tarball_set-IsSynced name path added _ refl (added_unless_there-IsSynced m files name v) in
    if-intro IsSynced kept.has_context
      (λ c. loaded_after-IsSynced load name kept (map_get name kept.plugins) h refl w) (λ c. w)

on_installed-IsSynced :
    (m : PluginManager) (files : List ℕ → Lookup) (load : Plugin → LoadEffect) (name : List ℕ)
    → LoadsWell load
    → IsSynced m
    → IsSynced (on_installed m files load name).0
unfolding on_installed
on_installed-IsSynced m files load name g v =
    let Synced : PluginManager × List PluginEvent → Type 0 = λ r. IsSynced r.0 in
    if-intro Synced (ends_with archive name)
      (λ h.
        if-intro Synced (starts_with (matterbridge_name ++ (b'-' ∷ [])) name)
          (λ k. register_installed-IsSynced m files load (without_version name) (some name) g v)
          (λ k. v))
      (λ h.
        if-intro Synced (same_text (without_tag name) matterbridge_name) (λ k. v)
          (λ k. register_installed-IsSynced m files load (without_tag name) none g v))

on_uninstalled-IsSynced :
    (m : PluginManager) (files : List ℕ → Lookup) (name : List ℕ)
    → IsSynced m
    → IsSynced (on_uninstalled m files name).0
unfolding on_uninstalled
on_uninstalled-IsSynced m files name v =
    if-intro (λ (r : PluginManager × List PluginEvent). IsSynced r.0) (map_has name m.plugins)
      (λ h. operate-IsSynced m files (to_remove name) v) (λ h. v)

on_spawned-IsSynced :
    (m : PluginManager) (files : List ℕ → Lookup) (load : Plugin → LoadEffect)
    (command : PackageCommand) (success : Bool) (name : List ℕ)
    → LoadsWell load
    → IsSynced m
    → IsSynced (on_spawned m files load command success name).0
unfolding on_spawned
on_spawned-IsSynced m files load command false name h v = v
on_spawned-IsSynced m files load install true name h v = on_installed-IsSynced m files load name h v
on_spawned-IsSynced m files load uninstall true name h v = on_uninstalled-IsSynced m files name v

-- Every request but plugins_set, which stores a plugin in the Map alone.
abbrev pub is_saved : PluginMessage → Bool
is_saved (worker_request (plugins_set p)) = false
is_saved message = true

handle_request-IsSynced :
    (m : PluginManager) (files : List ℕ → Lookup) (q : PluginRequest)
    → is_saved (worker_request q) ≡ true
    → IsSynced m
    → IsSynced (handle_request m files q).manager
unfolding handle_request
handle_request-IsSynced m files plugins_length h v = v
handle_request-IsSynced m files plugins_size h v = v
handle_request-IsSynced m files (plugins_has name) h v = v
handle_request-IsSynced m files (plugins_get name) h v = v
handle_request-IsSynced m files (plugins_set p) h v = cc
handle_request-IsSynced m files plugins_storagepluginarray h v = v
handle_request-IsSynced m files plugins_apipluginarray h v = v
handle_request-IsSynced m files (plugins_add name) h v = operate-IsSynced m files (to_add name) v
handle_request-IsSynced m files (plugins_remove name) h v =
    operate-IsSynced m files (to_remove name) v
handle_request-IsSynced m files (plugins_enable name) h v =
    operate-IsSynced m files (to_enable name) v
handle_request-IsSynced m files (plugins_disable name) h v =
    operate-IsSynced m files (to_disable name) v

msg_handler-IsSynced :
    (m : PluginManager) (files : List ℕ → Lookup) (load : Plugin → LoadEffect)
    (message : PluginMessage)
    → is_saved message ≡ true
    → LoadsWell load
    → IsSynced m
    → IsSynced (msg_handler m files load message).manager
unfolding msg_handler
msg_handler-IsSynced m files load (worker_request q) h g v = handle_request-IsSynced m files q h v
msg_handler-IsSynced m files load (spawn_response r) h g v =
    on_spawned-IsSynced m files load r.package_command r.success r.package_name g v

-- A message, with the files that it finds and what loading does to a plugin then.
pub record Delivery : Type 0 where
  pub files : List ℕ → Lookup
  pub loading : Plugin → LoadEffect
  pub delivered : PluginMessage

abbrev pub handle_all : PluginManager → List Delivery → PluginManager
handle_all m [] = m
handle_all m (d ∷ deliveries) =
    handle_all (msg_handler m d.files d.loading d.delivered).manager deliveries

-- With a node context, any messages of other threads that read, add, remove, enable and disable plugins
-- or say that a package was installed or uninstalled, each handled before the next and whatever files
-- they find, keep the storage in step with the Map: it holds exactly the registered plugins in their
-- order, each under its own name, none twice. The message plugins_set is excepted; and where a plugin
-- that was installed is loaded, loading does not fail after it changed the plugin, and keeps its name.
pub handle_all-IsSynced :
    (m : PluginManager) (deliveries : List Delivery)
    → All (λ d. (is_saved d.delivered ≡ true) × LoadsWell d.loading) deliveries
    → IsSynced m
    → IsSynced (handle_all m deliveries)
handle_all-IsSynced m [] all v = v
handle_all-IsSynced m (d ∷ deliveries) all v =
    handle_all-IsSynced (msg_handler m d.files d.loading d.delivered).manager deliveries all.1
      (msg_handler-IsSynced m d.files d.loading d.delivered all.0.0 all.0.1 v)
