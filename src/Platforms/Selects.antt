-- ===== src/Platforms/Selects.antt =====
-- matterbridgePlatform.ts: the devices and entities that the configuration of a plugin chooses from,
-- and their copy in the storage, which is there. A platform loads them before its plugin sets any; a
-- list of entities that the plugin goes on to change after it gave it away is left out.
pub mod Kept
pub mod Tests
use matterbridge.Base.{
  ℕ, Bool, false, ◌||◌, Option, none, some, List, [], ◌∷◌, ◌++◌, map, if◌then◌else◌, map_delete,
  map_get, map_set, map_values, same_text, same_text, map_delete, map_get, map_set, map_delete,
  map_values, same_text,
}
use matterbridge.Platforms.{filled}

pub record SelectEntity : Type 0 where
  pub name : List ℕ
  pub description : List ℕ
  pub icon : Option (List ℕ)

pub record SelectDevice : Type 0 where
  pub serial : List ℕ
  pub name : List ℕ
  pub config_url : Option (List ℕ)
  pub icon : Option (List ℕ)
  pub entities : Option (List SelectEntity)

pub record Selects : Type 0 where
  pub select_devices : List (List ℕ × SelectDevice)
  pub select_entities : List (List ℕ × SelectEntity)
  pub stored_devices : List SelectDevice
  pub stored_entities : List SelectEntity

-- `for (const value of values) map.set(key(value), value)`.
unfoldable pub set_each :
    {A : Type 0} → (A → List ℕ) → List A → List (List ℕ × A) → List (List ℕ × A)
set_each key [] entries = entries
set_each key (value ∷ values) entries = set_each key values (map_set (key value) value entries)

abbrev pub serial_of : SelectDevice → List ℕ
serial_of d = d.serial

abbrev pub entity_name : SelectEntity → List ℕ
entity_name e = e.name

-- The lists of a platform that is made, by what is in the storage.
unfoldable pub load_selects : List SelectDevice → List SelectEntity → Selects
unfolding set_each
load_selects devices entities = record {
  select_devices = set_each serial_of devices [];
  select_entities = set_each entity_name entities [];
  stored_devices = devices;
  stored_entities = entities;
}

unfoldable pub save_selects : Selects → Selects
save_selects s = record s {
  stored_devices = map_values s.select_devices;
  stored_entities = map_values s.select_entities;
}

-- What `destroy` does with the lists.
unfoldable pub forget_selects : Selects → Selects
forget_selects s = record s { select_devices = []; select_entities = [] }

-- The lists in onShutdown: they are saved, and then the platform is destroyed.
unfoldable pub shut_down_selects : Selects → Selects
unfolding save_selects forget_selects
shut_down_selects s = forget_selects (save_selects s)

unfoldable pub clear_select : Selects → Selects
unfolding save_selects forget_selects
clear_select s = save_selects (forget_selects s)

unfoldable pub clear_device_select : List ℕ → Selects → Selects
unfolding save_selects
clear_device_select serial s =
    save_selects (record s { select_devices = map_delete serial s.select_devices })

unfoldable pub clear_entity_select : List ℕ → Selects → Selects
unfolding save_selects
clear_entity_select name s =
    save_selects (record s { select_entities = map_delete name s.select_entities })

-- `if (value) device.field = value`, for the value that counts as one.
unfoldable pub replaced : {A : Type 0} → Option A → Option A → Option A
replaced none old = old
replaced (some value) old = some value

-- The device that setSelectDevice leaves, by the one that is there.
unfoldable pub chosen_device : SelectDevice → Option SelectDevice → SelectDevice
unfolding filled replaced
chosen_device given none = given
chosen_device given (some old) = record old {
  serial = given.serial;
  name = given.name;
  config_url = replaced (filled given.config_url) old.config_url;
  icon = replaced (filled given.icon) old.icon;
  entities = replaced given.entities old.entities;
}

-- The arguments of setSelectDevice are the fields of a device.
unfoldable pub set_select_device : SelectDevice → Selects → Selects
unfolding chosen_device
set_select_device given s = record s {
  select_devices =
      map_set given.serial (chosen_device given (map_get given.serial s.select_devices))
        s.select_devices;
}

unfoldable pub get_select_device : List ℕ → Selects → Option SelectDevice
get_select_device serial s = map_get serial s.select_devices

unfoldable pub has_entity : List ℕ → List SelectEntity → Bool
has_entity name [] = false
has_entity name (e ∷ entities) = same_text e.name name || has_entity name entities

-- The entities of a device with one more, unless its name is there.
unfoldable pub with_entity : SelectEntity → Option (List SelectEntity) → List SelectEntity
unfolding has_entity
with_entity e none = e ∷ []
with_entity e (some entities) =
    if has_entity e.name entities then entities else entities ++ (e ∷ [])

unfoldable pub set_entity_of :
    List ℕ
    → SelectEntity
    → Option SelectDevice
    → List (List ℕ × SelectDevice)
    → List (List ℕ × SelectDevice)
unfolding with_entity
set_entity_of serial e none devices = devices
set_entity_of serial e (some d) devices =
    map_set serial (record d { entities = some (with_entity e d.entities) }) devices

unfoldable pub set_select_device_entity : List ℕ → SelectEntity → Selects → Selects
unfolding set_entity_of
set_select_device_entity serial e s = record s {
  select_devices = set_entity_of serial e (map_get serial s.select_devices) s.select_devices;
}

-- Each device with the name of the plugin.
unfoldable pub get_select_devices : List ℕ → Selects → List (List ℕ × SelectDevice)
get_select_devices plugin_name s = map (λ d. (plugin_name, d)) (map_values s.select_devices)

unfoldable pub set_select_entity : SelectEntity → Selects → Selects
set_select_entity e s = record s { select_entities = map_set e.name e s.select_entities }

unfoldable pub get_select_entity : List ℕ → Selects → Option SelectEntity
get_select_entity name s = map_get name s.select_entities

unfoldable pub get_select_entities : List ℕ → Selects → List (List ℕ × SelectEntity)
get_select_entities plugin_name s = map (λ e. (plugin_name, e)) (map_values s.select_entities)
