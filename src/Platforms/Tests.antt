-- ===== src/Platforms/Tests.antt =====
-- A platform of a bridge with a light, and the theorems there.
use matterbridge.Base.{
  ℕ, ◌≡◌, refl, Bool, true, false, ◌&&◌, ◌||◌, not, none, some, List, [], ◌∷◌, map, arith,
  if◌then◌else◌, is_space, map_get, map_set, same_text, split, trim, trim_start, split, same_text,
  map_get, map_set, same_text, trim, trim_start, is_space,
}
use matterbridge.Clusters.{ClusterType}
use matterbridge.DeviceTypes.Lighting.{on_off_light}
use matterbridge.Endpoints.{new_endpoint}
use matterbridge.Endpoints.Servers.{Requires}
use matterbridge.Platforms.{
  bridge, any_platform, Device, MatterbridgePlatform, filled, has_device_name, required, is_bridged,
  register_begin, register_end, register_device, check_endpoint_numbers,
}
use matterbridge.Platforms.Names.{AreRegistered}
use matterbridge.Platforms.Registered.{
  register, unregister, check_numbers, operate_all, operate_all-AreRegistered,
}
use matterbridge.Platforms.Bridged.{IsRegisteredAs, register_device_lem}
use matterbridge.Platforms.Numbers.{current_number, check_endpoint_numbers_lem}
use matterbridge.Platforms.Versions.{
  at_least, version_parts, compare_versions, compare_versions_lem,
}

abbrev add_server : ClusterType → List ClusterType → List ClusterType
add_server c servers = c ∷ servers

add_server-Requires : Requires add_server
add_server-Requires c servers d = ground arith

abbrev letter : ℕ → List ℕ
letter c = c ∷ []

abbrev lamp : Device
lamp = record {
  unique_id = some (letter b'u');
  device_name = some (letter b'n');
  serial_number = some (letter b's');
  mode = none;
  number = some 4;
  endpoint = new_endpoint (on_off_light ∷ []);
  device_type_list = some ((on_off_light.code, on_off_light.revision) ∷ []);
  children = (some (letter b'c'), some 5) ∷ [];
}

abbrev platform : MatterbridgePlatform
platform = record {
  bridge_mode = bridge;
  platform_type = any_platform;
  registered_endpoints = [];
  endpoint_map = (letter b'u', 3) ∷ [];
}

operate_all-AreRegistered_example :
    AreRegistered
      (operate_all add_server
        (register lamp true ∷ check_numbers ∷ unregister lamp ∷ [])
        platform).registered_endpoints
operate_all-AreRegistered_example =
    operate_all-AreRegistered add_server (register lamp true ∷ check_numbers ∷ unregister lamp ∷ [])
      platform (tt, tt, tt)

lamp-filled :
    (filled lamp.unique_id ≡ some (letter b'u'))
    × (filled lamp.device_name ≡ some (letter b'n'))
    × (filled lamp.serial_number ≡ some (letter b's'))
unfolding filled
lamp-filled = (refl, refl, refl)

lamp_is_new : has_device_name (letter b'n') platform.registered_endpoints ≡ false
unfolding has_device_name
lamp_is_new = refl

register_device_lem_example :
    (next : Device) × IsRegisteredAs platform lamp next
    × ((added : Bool) (other : List ℕ)
        → map_get other (register_device add_server platform lamp added).registered_endpoints ≡ (
            if added && same_text (letter b'u') other
            then some next
            else map_get other platform.registered_endpoints))
register_device_lem_example =
    register_device_lem add_server add_server-Requires platform lamp (letter b'u') (letter b'n')
      (letter b's') lamp-filled.0 lamp-filled.1 lamp-filled.2 lamp_is_new

-- Two registrations of devices with one name that overlap: both find the name free, and both devices are
-- registered.
abbrev twin : Device
twin = record lamp { unique_id = some (letter b'v') }

overlapping :
    map
      (λ e. e.1.device_name)
      (register_end true
        (register_begin add_server platform twin)
        (register_end true (register_begin add_server platform lamp) platform)).registered_endpoints
    ≡ some (letter b'n') ∷ some (letter b'n') ∷ []
unfolding register_begin register_end filled required has_device_name is_bridged map_set same_text
overlapping = refl

check_endpoint_numbers_lem_example :
    map_get
      (letter b'u')
      (check_endpoint_numbers
        (record platform { registered_endpoints = (letter b'u', lamp) ∷ [] })).0.endpoint_map
    ≡ current_number
        ((letter b'u', lamp) ∷ [])
        (letter b'u')
        (map_get (letter b'u') platform.endpoint_map)
check_endpoint_numbers_lem_example =
    check_endpoint_numbers_lem (record platform { registered_endpoints = (letter b'u', lamp) ∷ [] })
      (letter b'u')

abbrev three_nine : List ℕ
three_nine = b'3' ∷ b'.' ∷ b'9' ∷ []

abbrev three_ten : List ℕ
three_ten = b'3' ∷ b'.' ∷ b'1' ∷ b'0' ∷ b'.' ∷ b'0' ∷ b'-' ∷ b'd' ∷ []

compare_versions_lem_example :
    (compare_versions three_ten three_nine
      ≡ at_least (version_parts three_ten) (version_parts three_nine))
    × (compare_versions three_ten three_nine || compare_versions three_nine three_ten ≡ true)
    × (not (compare_versions three_ten three_ten && compare_versions three_ten three_nine)
          || compare_versions three_ten three_nine
        ≡ true)
compare_versions_lem_example = compare_versions_lem three_ten three_nine three_ten

-- Parts are compared as numbers, and a tag is cut off.
three_ten_is_newer : version_parts three_ten ≡ 3 ∷ 10 ∷ 0 ∷ []
unfolding version_parts split trim_start is_space trim
three_ten_is_newer = refl
