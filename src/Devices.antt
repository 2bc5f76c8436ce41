-- ===== src/Devices.antt =====
-- packages/core/src/deviceManager.ts: the device manager, a Map of the bridged devices keyed by
-- unique id, and the handler of the messages of the other threads. Texts are lists of code units;
-- an undefined property is `none`. Logging and the broadcast channel are left out.
pub mod Store
pub mod Handler
pub mod Tests
use mathlib.Core.Option
use matterbridge.Base.{
  ℕ, Bool, true, false, not, Option, none, some, List, [], ◌∷◌, map, if◌then◌else◌, length, Result,
  ok, err, ◌>>=◌, map_delete, map_get, map_has, map_set, map_values, same_text,
}

-- A semantic tag of matter.js.
pub record Semtag : Type 0 where
  pub mfg_code : Option ℕ
  pub namespace_id : ℕ
  pub tag : ℕ
  pub label : Option (List ℕ)

pub record BaseDevice : Type 0 where
  pub mode : Option (List ℕ)
  pub plugin : Option (List ℕ)
  pub config_url : Option (List ℕ)
  pub device_name : Option (List ℕ)
  pub serial_number : Option (List ℕ)
  pub unique_id : Option (List ℕ)
  pub vendor_id : Option ℕ
  pub vendor_name : Option (List ℕ)
  pub product_id : Option ℕ
  pub product_name : Option (List ℕ)
  pub software_version : Option ℕ
  pub software_version_string : Option (List ℕ)
  pub hardware_version : Option ℕ
  pub hardware_version_string : Option (List ℕ)
  pub product_url : List ℕ
  pub tag_list : Option (List Semtag)
  pub original_id : Option (List ℕ)
  pub name : Option (List ℕ)
  pub device_type : Option ℕ
  pub number : Option ℕ
  pub id : Option (List ℕ)

-- What the manager stores: a MatterbridgeEndpoint, whose other parts are the live object `E`, or
-- the plain BaseDevice that a message brought, which has no live object.
pub record Device (E : Type 0) : Type 0 where
  pub base : BaseDevice
  pub live : Option E

abbrev pub to_base_device : {E : Type 0} → Device E → BaseDevice
to_base_device d = d.base

pub data LogLevel : Type 0 where
  debug info notice warn error fatal : LogLevel

pub record DeviceManager (E : Type 0) : Type 0 where
  pub devices : List (List ℕ × Device E)
  pub log_level : LogLevel

pub data DeviceError : Type 0 where
  unique_id_required : DeviceError

-- `if (!device.uniqueId) throw ...`: the id may not be undefined or the empty text.
unfoldable pub required_id : Option (List ℕ) → Result DeviceError (List ℕ)
required_id none = err unique_id_required
required_id (some []) = err unique_id_required
required_id (some (c ∷ cs)) = ok (c ∷ cs)

-- `pluginName && pluginName !== device.plugin`: an empty name filters nothing.
unfoldable pub is_skipped : Option (List ℕ) → Option (List ℕ) → Bool
is_skipped none plugin = false
is_skipped (some []) plugin = false
is_skipped (some (c ∷ cs)) none = true
is_skipped (some (c ∷ cs)) (some plugin) = not (same_text (c ∷ cs) plugin)

module _ {E : Type 0} where
  unfoldable pub size : DeviceManager E → ℕ
  size m = length m.devices

  unfoldable pub has : DeviceManager E → List ℕ → Bool
  has m id = map_has id m.devices

  unfoldable pub get : DeviceManager E → List ℕ → Option (Device E)
  get m id = map_get id m.devices

  unfoldable pub set_device :
      DeviceManager E → Device E → Result DeviceError (DeviceManager E × Device E)
  set_device m d = do
    id ← required_id d.base.unique_id
    ok (record m { devices = map_set id d m.devices }, d)

  unfoldable pub remove : DeviceManager E → Device E → Result DeviceError (DeviceManager E × Bool)
  remove m d = do
    id ← required_id d.base.unique_id
    ok (record m { devices = map_delete id m.devices }, map_has id m.devices)

  unfoldable pub clear : DeviceManager E → DeviceManager E
  clear m = record m { devices = [] }

  unfoldable pub array : DeviceManager E → List (Device E)
  array m = map_values m.devices

  unfoldable pub base_devices : Option (List ℕ) → List (Device E) → List BaseDevice
  base_devices plugin_name [] = []
  base_devices plugin_name (d ∷ ds) =
      let rest = base_devices plugin_name ds in
      if is_skipped plugin_name d.base.plugin then rest else to_base_device d ∷ rest

  unfoldable pub base_array : DeviceManager E → Option (List ℕ) → List BaseDevice
  base_array m plugin_name = base_devices plugin_name (array m)

-- The messages of type WorkerMessage that msgHandler tells apart.
pub data DeviceRequest : Type 0 where
  get_log_level devices_length devices_size devices_clear : DeviceRequest
  set_log_level : LogLevel → DeviceRequest
  devices_has devices_get : List ℕ → DeviceRequest
  devices_set devices_remove : BaseDevice → DeviceRequest
  devices_basearray : Option (List ℕ) → DeviceRequest
  other_request : DeviceRequest

pub data DeviceResponse : Type 0 where
  log_level_is : LogLevel → DeviceResponse
  length_is size_is : ℕ → DeviceResponse
  has_is success_is : Bool → DeviceResponse
  device_is : Option BaseDevice → DeviceResponse
  devices_are : List BaseDevice → DeviceResponse

-- A message brings a BaseDevice, with no live object.
abbrev pub plain : {E : Type 0} → BaseDevice → Device E
plain b = record { base = b; live = none }

-- The handler: the new state, and the response that it sends, if it sends one.
unfoldable pub msg_handler :
    {E : Type 0}
    → DeviceManager E
    → DeviceRequest
    → Result DeviceError (DeviceManager E × Option DeviceResponse)
unfolding size has get set_device remove clear base_array
msg_handler m get_log_level = ok (m, some (log_level_is m.log_level))
msg_handler m (set_log_level level) = ok (record m { log_level = level }, some (log_level_is level))
msg_handler m devices_length = ok (m, some (length_is (size m)))
msg_handler m devices_size = ok (m, some (size_is (size m)))
msg_handler m (devices_has id) = ok (m, some (has_is (has m id)))
msg_handler m (devices_get id) = ok (m, some (device_is (Option.map to_base_device (get m id))))
msg_handler m (devices_set b) = do
  (m', d) ← set_device m (plain b)
  ok (m', some (device_is (some (to_base_device d))))
msg_handler m (devices_remove b) = do
  (m', success) ← remove m (plain b)
  ok (m', some (success_is success))
msg_handler m devices_clear = ok (clear m, some (success_is true))
msg_handler m (devices_basearray plugin_name) =
    ok (m, some (devices_are (base_array m plugin_name)))
msg_handler m other_request = ok (m, none)
