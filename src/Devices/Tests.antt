-- ===== src/Devices/Tests.antt =====
-- The device manager on a concrete Map, and its theorems there.
use matterbridge.Base.{
  ℕ, ◌≡◌, refl, none, some, List, [], ◌∷◌, ok, map_delete, map_get, map_has, map_set, same_text,
  same_text, map_delete,
}
use matterbridge.Devices.{
  info, BaseDevice, DeviceManager, required_id, plain, DeviceRequest, device_is, devices_size,
  devices_get, devices_set, devices_remove, set_log_level, set_device, remove, msg_handler, size,
  has, get, base_array, base_devices, is_skipped, array,
}
use matterbridge.Devices.Store.{IsValid, msg_handler-IsValid}
use matterbridge.Devices.Handler.{handle, handle_all, msg_handler-history}

names : Unit {0}
unfolding required_id set_device remove msg_handler size has get base_array base_devices is_skipped
    array map_get map_has map_set map_delete same_text
names = tt

abbrev device : List ℕ → List ℕ → BaseDevice
device plugin id = record {
  mode = none;
  plugin = some plugin;
  config_url = none;
  device_name = none;
  serial_number = none;
  unique_id = some id;
  vendor_id = none;
  vendor_name = none;
  product_id = none;
  product_name = none;
  software_version = none;
  software_version_string = none;
  hardware_version = none;
  hardware_version_string = none;
  product_url = [];
  tag_list = none;
  original_id = none;
  name = none;
  device_type = some 256;
  number = none;
  id = none;
}

abbrev lamp : BaseDevice
lamp = device (112 ∷ []) (65 ∷ [])

abbrev socket : BaseDevice
socket = device (113 ∷ []) (66 ∷ [])

-- A manager that holds the lamp, with the live object 7.
abbrev manager : DeviceManager ℕ
manager = record {
  devices = (65 ∷ [], record { base = lamp; live = some 7 }) ∷ [];
  log_level = info;
}

manager-IsValid : IsValid manager
unfolding names
manager-IsValid = record { distinct = (refl, tt); own_keys = (refl, tt) }

switch_id : required_id socket.unique_id ≡ ok (66 ∷ [])
unfolding names
switch_id = refl

lamp_id : required_id lamp.unique_id ≡ ok (65 ∷ [])
unfolding names
lamp_id = refl

abbrev both : DeviceManager ℕ
both = record {
  devices = (65 ∷ [], record { base = lamp; live = some 7 }) ∷ (66 ∷ [], plain socket) ∷ [];
  log_level = info;
}

set_switch : msg_handler manager (devices_set socket) ≡ ok (both, some (device_is (some socket)))
unfolding names
set_switch = refl

msg_handler-IsValid_example : IsValid both
msg_handler-IsValid_example =
    msg_handler-IsValid manager manager-IsValid (devices_set socket)
      {r = (both, some (device_is (some socket)))} set_switch

-- The messages after the socket is stored.
abbrev later : List DeviceRequest
later = devices_size ∷ devices_remove lamp ∷ set_log_level info ∷ []

msg_handler-history_example :
    msg_handler (handle_all (handle manager (devices_set socket)) later) (devices_get (66 ∷ []))
    ≡ ok (handle_all (handle manager (devices_set socket)) later, some (device_is (some socket)))
unfolding names
msg_handler-history_example =
    msg_handler-history manager socket (66 ∷ []) later manager-IsValid switch_id
      (refl, (refl, (refl, tt)))

base_array_of_plugin : base_array both (some (113 ∷ [])) ≡ socket ∷ []
unfolding names
base_array_of_plugin = refl
