-- ===== src/Platforms/Selects/Kept.antt =====
-- matterbridgePlatform.ts: the lists to choose from over a restart of the platform.
use matterbridge.Base.{
  ℕ, ◌≡◌, refl, sym, ap, subst, ◌∙◌, false, Option, none, some, List, [], ◌∷◌, ◌++◌, append_assoc,
  append-nil, arith, All, HasDistinctKeys, map_delete, map_delete-HasDistinctKeys, map_get, map_has,
  map_has-map_set, map_set, map_set-HasDistinctKeys, map_values, same_text_iff, map_set-All,
  map_delete-All, map_get-All, map_delete-HasDistinctKeys, map_set-HasDistinctKeys, HasDistinctKeys,
  map_delete, map_get, map_has, map_set, map_delete, map_values, same_text_iff, HasDistinctKeys,
  map_set-HasDistinctKeys, map_delete-HasDistinctKeys, map_set-All, map_delete-All, map_get-All,
  map_has-map_set,
}
use matterbridge.Platforms.Selects.{
  SelectEntity, SelectDevice, Selects, set_each, serial_of, entity_name, load_selects, save_selects,
  forget_selects, shut_down_selects, clear_select, clear_device_select, clear_entity_select,
  chosen_device, set_select_device, with_entity, set_entity_of, set_select_device_entity,
  set_select_entity,
}

module _ {A : Type 0} (key : A → List ℕ) where
  -- Every value stands under its key, and no key is there twice.
  abbrev pub IsKeyed : List (List ℕ × A) → Type 0
  IsKeyed entries = HasDistinctKeys entries × All (λ e. key e.1 ≡ e.0) entries

  pub map_set-IsKeyed :
      (name : List ℕ) (value : A) (entries : List (List ℕ × A))
      → key value ≡ name
      → IsKeyed entries
      → IsKeyed (map_set name value entries)
  map_set-IsKeyed name value entries h k = (
    map_set-HasDistinctKeys name value entries k.0,
    map_set-All (λ e. key e.1 ≡ e.0) name value entries h k.1,
  )

  pub map_delete-IsKeyed :
      (name : List ℕ) (entries : List (List ℕ × A))
      → IsKeyed entries
      → IsKeyed (map_delete name entries)
  map_delete-IsKeyed name entries k = (
    map_delete-HasDistinctKeys name entries k.0,
    map_delete-All (λ e. key e.1 ≡ e.0) name entries k.1,
  )

  pub set_each-IsKeyed :
      (values : List A) (entries : List (List ℕ × A))
      → IsKeyed entries
      → IsKeyed (set_each key values entries)
  unfolding set_each
  set_each-IsKeyed [] entries k = k
  set_each-IsKeyed (v ∷ values) entries k =
      set_each-IsKeyed values (map_set (key v) v entries) (map_set-IsKeyed (key v) v entries refl k)

  map_set_absent :
      (name : List ℕ) (value : A) (entries : List (List ℕ × A))
      → map_has name entries ≡ false
      → map_set name value entries ≡ entries ++ ((name, value) ∷ [])
  unfolding map_has map_set
  map_set_absent name value [] h = refl
  map_set_absent name value ((k, v) ∷ entries) h = ground (arith, map_set_absent name value entries)

  -- Entries that are not there yet still are not once another key is set.
  map_set_apart :
      (name : List ℕ) (value : A) (entries later : List (List ℕ × A))
      → map_has name later ≡ false
      → All (λ e. map_has e.0 entries ≡ false) later
      → All (λ e. map_has e.0 (map_set name value entries) ≡ false) later
  unfolding map_has
  map_set_apart name value entries [] h all = tt
  map_set_apart name value entries ((k, v) ∷ later) h all = (
    ground (
      arith,
      h,
      all.0,
      map_has-map_set name k value entries,
      same_text_iff name k,
      same_text_iff k name,
    ),
    map_set_apart name value entries later (ground (arith, h)) all.1,
  )

  set_each_append :
      (later entries : List (List ℕ × A))
      → IsKeyed later
      → All (λ e. map_has e.0 entries ≡ false) later
      → set_each key (map_values later) entries ≡ entries ++ later
  unfolding set_each
  set_each_append [] entries k apart = sym (append-nil entries)
  set_each_append ((n, v) ∷ later) entries k apart =
      let set_here : map_set (key v) v entries ≡ entries ++ ((n, v) ∷ []) =
        ap (λ name. map_set name v entries) k.1.0 ∙ map_set_absent n v entries apart.0 in
      let rest_apart =
        subst (λ es. All (λ e. map_has e.0 es ≡ false) later) (map_set_absent n v entries apart.0)
          (map_set_apart n v entries later k.0.0 apart.1) in
      ap (set_each key (map_values later)) set_here
      ∙ set_each_append later (entries ++ ((n, v) ∷ [])) (k.0.1, k.1.1) rest_apart
      ∙ append_assoc entries ((n, v) ∷ []) later

  absent_from_nil :
      (entries : List (List ℕ × A)) → All (λ e. map_has {V = A} e.0 [] ≡ false) entries
  unfolding map_has
  absent_from_nil [] = tt
  absent_from_nil (e ∷ entries) = (refl, absent_from_nil entries)

  -- Keyed entries are made again of their values.
  pub set_each-map_values :
      (entries : List (List ℕ × A))
      → IsKeyed entries
      → set_each key (map_values entries) [] ≡ entries
  set_each-map_values entries k = set_each_append entries [] k (absent_from_nil entries)

abbrev pub AreKept : Selects → Type 0
AreKept s = IsKeyed serial_of s.select_devices × IsKeyed entity_name s.select_entities

-- What is done with the lists.
pub data Operation : Type 0 where
  choose_device : SelectDevice → Operation
  set_device_entity : (serial : List ℕ) → SelectEntity → Operation
  set_entity : SelectEntity → Operation
  clear_all save : Operation
  clear_device clear_entity : (name : List ℕ) → Operation

abbrev pub choose : Operation → Selects → Selects
choose (choose_device given) s = set_select_device given s
choose (set_device_entity serial e) s = set_select_device_entity serial e s
choose (set_entity e) s = set_select_entity e s
choose clear_all s = clear_select s
choose save s = save_selects s
choose (clear_device serial) s = clear_device_select serial s
choose (clear_entity name) s = clear_entity_select name s

abbrev pub choose_all : List Operation → Selects → Selects
choose_all [] s = s
choose_all (o ∷ operations) s = choose_all operations (choose o s)

chosen_device-serial :
    (given : SelectDevice) (found : Option SelectDevice)
    → (chosen_device given found).serial ≡ given.serial
unfolding chosen_device
chosen_device-serial given none = refl
chosen_device-serial given (some old) = refl

set_entity_of-IsKeyed :
    (serial : List ℕ) (e : SelectEntity) (found : Option SelectDevice)
    (devices : List (List ℕ × SelectDevice))
    → map_get serial devices ≡ found
    → IsKeyed serial_of devices
    → IsKeyed serial_of (set_entity_of serial e found devices)
unfolding set_entity_of
set_entity_of-IsKeyed serial e none devices h k = k
set_entity_of-IsKeyed serial e (some d) devices h k =
    map_set-IsKeyed serial_of serial (record d { entities = some (with_entity e d.entities) })
      devices (map_get-All (λ e. e.1.serial ≡ e.0) serial d devices k.1 h) k

choose-AreKept : (o : Operation) (s : Selects) → AreKept s → AreKept (choose o s)
unfolding save_selects forget_selects clear_select clear_device_select clear_entity_select
    set_select_device set_select_device_entity set_select_entity
choose-AreKept (choose_device given) s k = (
  map_set-IsKeyed serial_of given.serial
      (chosen_device given (map_get given.serial s.select_devices)) s.select_devices
      (chosen_device-serial given (map_get given.serial s.select_devices)) k.0,
  k.1,
)
choose-AreKept (set_device_entity serial e) s k = (
  set_entity_of-IsKeyed serial e (map_get serial s.select_devices) s.select_devices refl k.0,
  k.1,
)
choose-AreKept (set_entity e) s k =
    (k.0, map_set-IsKeyed entity_name e.name e s.select_entities refl k.1)
choose-AreKept clear_all s k = ((tt, tt), (tt, tt))
choose-AreKept save s k = k
choose-AreKept (clear_device serial) s k =
    (map_delete-IsKeyed serial_of serial s.select_devices k.0, k.1)
choose-AreKept (clear_entity name) s k =
    (k.0, map_delete-IsKeyed entity_name name s.select_entities k.1)

choose_all-AreKept :
    (operations : List Operation) (s : Selects) → AreKept s → AreKept (choose_all operations s)
choose_all-AreKept [] s k = k
choose_all-AreKept (o ∷ operations) s k =
    choose_all-AreKept operations (choose o s) (choose-AreKept o s k)

load_selects-AreKept :
    (devices : List SelectDevice) (entities : List SelectEntity)
    → AreKept (load_selects devices entities)
unfolding load_selects
load_selects-AreKept devices entities = (
  set_each-IsKeyed serial_of devices [] (tt, tt),
  set_each-IsKeyed entity_name entities [] (tt, tt),
)

-- The lists of a platform that is made from what the shutdown of another one left in the storage.
abbrev pub restarted : Selects → Selects
restarted s = load_selects s.stored_devices s.stored_entities

-- Whatever a platform finds in the storage, and whatever devices and entities are then set, changed,
-- cleared and saved, once it is shut down and made again its lists of devices and of entities are what
-- they were before the shutdown, in their order.
pub load-shut_down_selects :
    (devices : List SelectDevice) (entities : List SelectEntity) (operations : List Operation)
    → let s = choose_all operations (load_selects devices entities) in
      ((restarted (shut_down_selects s)).select_devices ≡ s.select_devices)
      × ((restarted (shut_down_selects s)).select_entities ≡ s.select_entities)
unfolding load_selects save_selects forget_selects shut_down_selects
load-shut_down_selects devices entities operations =
    let s = choose_all operations (load_selects devices entities) in
    let kept = choose_all-AreKept operations _ (load_selects-AreKept devices entities) in
    (
      set_each-map_values serial_of s.select_devices kept.0,
      set_each-map_values entity_name s.select_entities kept.1,
    )
