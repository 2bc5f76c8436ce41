-- ===== src/DeviceTypes/Search.antt =====
-- packages/core/src/matterbridgeDeviceTypes.ts: the search for a device type by its code or its name.
use Prim.Native.String.{String}
use text.Mathlib.Text
use matterbridge.Base.{ℕ, Bool, Option, none, some, List, [], ◌∷◌, ◌==◌, if◌then◌else◌}
use matterbridge.DeviceTypes.{DeviceTypeDefinition}

pub data Key : Type 0 where
  by_code : ℕ → Key
  by_name : String → Key

-- `===` on names.
abbrev pub same_name : String → String → Bool
same_name s t = Text.◌==◌ s t

unfoldable pub has_key : Key → DeviceTypeDefinition → Bool
has_key (by_code key) d = d.code == key
has_key (by_name key) d = same_name d.name key

unfoldable pub find : Key → List DeviceTypeDefinition → Option DeviceTypeDefinition
find key [] = none
find key (d ∷ device_types) = if has_key key d then some d else find key device_types
