-- ===== src/Platforms/Selects/Tests.antt =====
-- Two devices to choose from, and the restart of the platform there.
use matterbridge.Base.{ℕ, ◌≡◌, refl, none, some, List, [], ◌∷◌, same_text, same_text, same_text}
use matterbridge.Platforms.Selects.{
  SelectEntity, SelectDevice, Selects, load_selects, with_entity, shut_down_selects,
}
use matterbridge.Platforms.Selects.Kept.{
  Operation, choose_device, set_device_entity, set_entity, clear_device, choose_all, restarted,
  load-shut_down_selects,
}

abbrev entity : List ℕ → SelectEntity
entity name = record { name = name; description = []; icon = none }

abbrev plug : List ℕ → SelectDevice
plug serial = record {
  serial = serial;
  name = b'p' ∷ serial;
  config_url = none;
  icon = none;
  entities = none;
}

abbrev operations : List Operation
operations =
    choose_device (plug (b'1' ∷ []))
    ∷ choose_device (plug (b'2' ∷ []))
    ∷ set_device_entity (b'1' ∷ []) (entity (b'e' ∷ []))
    ∷ set_entity (entity (b'f' ∷ []))
    ∷ clear_device (b'2' ∷ [])
    ∷ []

abbrev used : Selects
used = choose_all operations (load_selects (plug (b'3' ∷ []) ∷ []) [])

load-shut_down_selects_example :
    ((restarted (shut_down_selects used)).select_devices ≡ used.select_devices)
    × ((restarted (shut_down_selects used)).select_entities ≡ used.select_entities)
load-shut_down_selects_example = load-shut_down_selects (plug (b'3' ∷ []) ∷ []) [] operations

-- An entity is added to a device once.
with_entity_test :
    with_entity (entity (b'e' ∷ [])) (some (entity (b'e' ∷ []) ∷ [])) ≡ entity (b'e' ∷ []) ∷ []
unfolding with_entity same_text
with_entity_test = refl
