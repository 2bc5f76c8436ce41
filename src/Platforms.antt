-- ===== src/Platforms.antt =====
-- packages/core/src/matterbridgePlatform.ts: class MatterbridgePlatform, the devices that a platform has
-- registered and the numbers of their endpoints. The server that matter.js adds is a parameter; what
-- the bridge does with a registered device changes no state of the platform, and an argument says
-- whether it takes the device. A registration begins, waits for the bridge, and ends; other calls may
-- come between. Unregistering is modelled where the bridge does not fail.
pub mod Names
pub mod Registered
pub mod Bridged
pub mod Numbers
pub mod Selects
pub mod Versions
pub mod Tests
use matterbridge.Base.{
  ℕ, suc, Bool, true, false, ◌||◌, not, Option, none, some, List, [], ◌∷◌, ◌++◌, ◌==◌,
  if◌then◌else◌, length, map_delete, map_get, map_set, same_text, same_text, map_delete, map_get,
  map_set, map_delete, same_text,
}
use matterbridge.Clusters.{ClusterType}
use matterbridge.DeviceTypes.{DeviceTypeDefinition}
use matterbridge.DeviceTypes.Basic.{bridged_node}
use matterbridge.Endpoints.{MatterbridgeEndpoint, set_device_type, has_cluster_server}

-- The mode of a device that is not bridged, of the bridge, and the type of a platform.
pub data DeviceMode : Type 0 where
  server matter : DeviceMode

pub data BridgeMode : Type 0 where
  bridge childbridge no_bridge : BridgeMode

pub data PlatformType : Type 0 where
  any_platform accessory_platform dynamic_platform : PlatformType

-- A device with its endpoint, its child endpoints by id and number, and the codes and revisions of the
-- deviceTypeList in the options of its Descriptor server, undefined where it has none.
pub record Device : Type 0 where
  pub unique_id : Option (List ℕ)
  pub device_name : Option (List ℕ)
  pub serial_number : Option (List ℕ)
  pub mode : Option DeviceMode
  pub number : Option ℕ
  pub endpoint : MatterbridgeEndpoint
  pub device_type_list : Option (List (ℕ × ℕ))
  pub children : List (Option (List ℕ) × Option ℕ)

pub record MatterbridgePlatform : Type 0 where
  pub bridge_mode : BridgeMode
  pub platform_type : PlatformType
  pub registered_endpoints : List (List ℕ × Device)
  pub endpoint_map : List (List ℕ × ℕ)

-- A text as a condition: neither undefined nor empty.
unfoldable pub filled : Option (List ℕ) → Option (List ℕ)
filled (some (c ∷ text)) = some (c ∷ text)
filled _ = none

-- The guards of registerDevice: a unique id, a name and a serial number.
unfoldable pub required :
    Option (List ℕ) → Option (List ℕ) → Option (List ℕ) → Option (List ℕ × List ℕ)
required none name serial = none
required (some id) none serial = none
required (some id) (some name) none = none
required (some id) (some name) (some serial) = some (id, name)

-- `device.deviceName === deviceName`.
unfoldable pub is_named : List ℕ → Option (List ℕ) → Bool
is_named name none = false
is_named name (some other) = same_text other name

unfoldable pub has_device_name : List ℕ → List (List ℕ × Device) → Bool
unfolding is_named
has_device_name name [] = false
has_device_name name ((id, d) ∷ devices) =
    is_named name d.device_name || has_device_name name devices

unfoldable pub is_bridged : Option DeviceMode → BridgeMode → PlatformType → Bool
is_bridged none bridge type = true
is_bridged none childbridge dynamic_platform = true
is_bridged _ _ _ = false

-- `deviceTypes.has(code)`.
unfoldable pub has_device_type : ℕ → List DeviceTypeDefinition → Bool
has_device_type code [] = false
has_device_type code (d ∷ device_types) = (d.code == code) || has_device_type code device_types

-- `deviceTypeList.find((dt) => dt.deviceType === code)`.
unfoldable pub is_listed : ℕ → List (ℕ × ℕ) → Bool
is_listed code [] = false
is_listed code (t ∷ types) = (t.0 == code) || is_listed code types

unfoldable pub list_bridged_node : Option (List (ℕ × ℕ)) → Option (List (ℕ × ℕ))
unfolding is_listed
list_bridged_node none = none
list_bridged_node (some types) = some (
    if not (is_listed bridged_node.code types)
    then types ++ ((bridged_node.code, bridged_node.revision) ∷ [])
    else types)

module _ (require : ClusterType → List ClusterType → List ClusterType) where
  -- The bridged node and its server are added to the endpoint, and the node to its Descriptor.
  unfoldable pub bridged : Device → Device
  unfolding has_device_type set_device_type has_cluster_server list_bridged_node
  bridged d =
      let is_new = not (has_device_type bridged_node.code d.endpoint.device_types) in
      record d {
        endpoint = record d.endpoint {
          device_types =
              if is_new
              then set_device_type bridged_node d.endpoint.device_types
              else d.endpoint.device_types;
          servers =
              if not (has_cluster_server d.endpoint ClusterType.bridged_device_basic_information)
              then require ClusterType.bridged_device_basic_information d.endpoint.servers
              else d.endpoint.servers;
        };
        device_type_list =
            if is_new then list_bridged_node d.device_type_list else d.device_type_list;
      }

  unfoldable pub bridged_device : MatterbridgePlatform → Device → Device
  unfolding is_bridged bridged
  bridged_device platform d =
      if is_bridged d.mode platform.bridge_mode platform.platform_type then bridged d else d

  -- The check of the name, for a device with its id and name, and what is registered if it passes.
  unfoldable pub begin_named :
      MatterbridgePlatform → Device → List ℕ → List ℕ → Option (List ℕ × Device)
  unfolding has_device_name bridged_device
  begin_named platform d id name =
      if has_device_name name platform.registered_endpoints
      then none
      else some (id, bridged_device platform d)

  unfoldable pub begin_required :
      MatterbridgePlatform → Device → Option (List ℕ × List ℕ) → Option (List ℕ × Device)
  unfolding begin_named
  begin_required platform d none = none
  begin_required platform d (some (id, name)) = begin_named platform d id name

  -- registerDevice until it waits for addBridgedEndpoint: none if it returns before.
  unfoldable pub register_begin : MatterbridgePlatform → Device → Option (List ℕ × Device)
  unfolding filled required begin_required
  register_begin platform d =
      begin_required platform d
        (required (filled d.unique_id) (filled d.device_name) (filled d.serial_number))

-- The rest of registerDevice, once addBridgedEndpoint took the device or failed.
unfoldable pub register_end :
    Bool → Option (List ℕ × Device) → MatterbridgePlatform → MatterbridgePlatform
register_end added none platform = platform
register_end false (some (id, d)) platform = platform
register_end true (some (id, d)) platform = record platform {
  registered_endpoints = map_set id d platform.registered_endpoints;
}

-- A registration during which no other call changes the platform.
unfoldable pub register_device :
    (ClusterType → List ClusterType → List ClusterType)
    → MatterbridgePlatform
    → Device
    → Bool
    → MatterbridgePlatform
unfolding register_begin register_end
register_device require platform d added =
    register_end added (register_begin require platform d) platform

unfoldable pub unregister_id : MatterbridgePlatform → Option (List ℕ) → MatterbridgePlatform
unregister_id platform none = platform
unregister_id platform (some id) = record platform {
  registered_endpoints = map_delete id platform.registered_endpoints;
}

unfoldable pub unregister_device : MatterbridgePlatform → Device → MatterbridgePlatform
unfolding filled unregister_id
unregister_device platform d = unregister_id platform (filled d.unique_id)

unfoldable pub unregister_all_devices : MatterbridgePlatform → MatterbridgePlatform
unregister_all_devices platform = record platform { registered_endpoints = [] }

-- `endpointMap.has(key) && endpointMap.get(key) !== number`, and then `!endpointMap.has(key)`; the
-- number that is stored is the last argument.
unfoldable pub record_over : List ℕ → ℕ → List (List ℕ × ℕ) → Option ℕ → List (List ℕ × ℕ)
record_over key number numbers none = map_set key number numbers
record_over key number numbers (some stored) =
    if not (stored == number) then map_set key number numbers else numbers

unfoldable pub record_number : List ℕ → ℕ → List (List ℕ × ℕ) → List (List ℕ × ℕ)
unfolding record_over
record_number key number numbers = record_over key number numbers (map_get key numbers)

abbrev pub separator : List ℕ
separator = b'|' ∷ b'.' ∷ b'|' ∷ []

-- The loop over the child endpoints; one without an id or a number is passed over.
unfoldable pub record_children :
    List ℕ → List (Option (List ℕ) × Option ℕ) → List (List ℕ × ℕ) → List (List ℕ × ℕ)
unfolding record_number
record_children id ((some (c ∷ child), some (suc number)) ∷ children) numbers =
    record_children id children
      (record_number (id ++ separator ++ (c ∷ child)) (suc number) numbers)
record_children id (_ ∷ children) numbers = record_children id children numbers
record_children id [] numbers = numbers

-- A round of the loop over the devices; one without a unique id or a number is passed over.
unfoldable pub record_numbered :
    Option (List ℕ)
    → Option ℕ
    → List (Option (List ℕ) × Option ℕ)
    → List (List ℕ × ℕ)
    → List (List ℕ × ℕ)
unfolding record_number record_children
record_numbered none number children numbers = numbers
record_numbered (some id) none children numbers = numbers
record_numbered (some id) (some number) children numbers =
    record_children id children (record_number id number numbers)

unfoldable pub record_device : Device → List (List ℕ × ℕ) → List (List ℕ × ℕ)
unfolding record_numbered
record_device d numbers = record_numbered d.unique_id d.number d.children numbers

unfoldable pub record_devices : List (List ℕ × Device) → List (List ℕ × ℕ) → List (List ℕ × ℕ)
unfolding record_device
record_devices [] numbers = numbers
record_devices ((id, d) ∷ devices) numbers = record_devices devices (record_device d numbers)

-- The platform with its map of numbers saved, and the size of the map.
unfoldable pub check_endpoint_numbers : MatterbridgePlatform → MatterbridgePlatform × ℕ
unfolding record_devices
check_endpoint_numbers platform =
    let numbers = record_devices platform.registered_endpoints platform.endpoint_map in
    (record platform { endpoint_map = numbers }, length numbers)

unfoldable pub clear_endpoint_numbers : MatterbridgePlatform → MatterbridgePlatform
clear_endpoint_numbers platform = record platform { endpoint_map = [] }
