-- ===== src/Devices/Store.antt =====
-- deviceManager.ts: the invariant of the Map of devices, and what each operation does to it.
use matterbridge.Base.{
  ℕ, ◌≡◌, subst, Bool, Option, List, All, ok, >>=-eq-ok, HasDistinctKeys,
  map_delete-HasDistinctKeys, map_set-HasDistinctKeys, ok-injective, map_set-All, map_delete-All,
}
use matterbridge.Devices.{
  Device, DeviceManager, required_id, plain, DeviceRequest, DeviceResponse, get_log_level,
  set_log_level, devices_length, devices_size, devices_has, devices_get, devices_set,
  devices_remove, devices_clear, devices_basearray, other_request, set_device, remove, clear,
  msg_handler,
}

abbrev pub IsStored : {E : Type 0} → List ℕ × Device E → Type 0
IsStored e = required_id e.1.base.unique_id ≡ ok e.0

-- Every key is the unique id of its device, and no key stands twice.
pub record IsValid {E : Type 0} (m : DeviceManager E) : Type 0 where
  pub distinct : HasDistinctKeys m.devices
  pub own_keys : All IsStored m.devices

module _ {E : Type 0} (m : DeviceManager E) (v : IsValid m) where
  set_device-IsValid :
      (d : Device E) {r : DeviceManager E × Device E} → set_device m d ≡ ok r → IsValid r.0
  unfolding set_device
  set_device-IsValid d h =
      let (id, e, k) = >>=-eq-ok (required_id d.base.unique_id) _ h in
      subst (λ r. IsValid r.0) (ok-injective k)
        record {
          distinct = map_set-HasDistinctKeys id d m.devices v.distinct;
          own_keys = map_set-All IsStored id d m.devices e v.own_keys;
        }

  remove-IsValid : (d : Device E) {r : DeviceManager E × Bool} → remove m d ≡ ok r → IsValid r.0
  unfolding remove
  remove-IsValid d h =
      let (id, e, k) = >>=-eq-ok (required_id d.base.unique_id) _ h in
      subst (λ r. IsValid r.0) (ok-injective k)
        record {
          distinct = map_delete-HasDistinctKeys id m.devices v.distinct;
          own_keys = map_delete-All IsStored id m.devices v.own_keys;
        }

  -- Every message that the handler answers keeps the Map valid: each key is the unique id of the
  -- device stored under it, and no key stands twice.
  pub msg_handler-IsValid :
      (q : DeviceRequest) {r : DeviceManager E × Option DeviceResponse}
      → msg_handler m q ≡ ok r
      → IsValid r.0
  unfolding msg_handler clear
  msg_handler-IsValid get_log_level h = subst (λ r. IsValid r.0) (ok-injective h) v
  msg_handler-IsValid (set_log_level level) h =
      subst (λ r. IsValid r.0) (ok-injective h)
        record { distinct = v.distinct; own_keys = v.own_keys }
  msg_handler-IsValid devices_length h = subst (λ r. IsValid r.0) (ok-injective h) v
  msg_handler-IsValid devices_size h = subst (λ r. IsValid r.0) (ok-injective h) v
  msg_handler-IsValid (devices_has id) h = subst (λ r. IsValid r.0) (ok-injective h) v
  msg_handler-IsValid (devices_get id) h = subst (λ r. IsValid r.0) (ok-injective h) v
  msg_handler-IsValid (devices_set b) h =
      let (s, e, k) = >>=-eq-ok (set_device m (plain b)) _ h in
      subst (λ r. IsValid r.0) (ok-injective k) (set_device-IsValid (plain b) e)
  msg_handler-IsValid (devices_remove b) h =
      let (s, e, k) = >>=-eq-ok (remove m (plain b)) _ h in
      subst (λ r. IsValid r.0) (ok-injective k) (remove-IsValid (plain b) e)
  msg_handler-IsValid devices_clear h =
      subst (λ r. IsValid r.0) (ok-injective h) record { distinct = tt; own_keys = tt }
  msg_handler-IsValid (devices_basearray p) h = subst (λ r. IsValid r.0) (ok-injective h) v
  msg_handler-IsValid other_request h = subst (λ r. IsValid r.0) (ok-injective h) v
