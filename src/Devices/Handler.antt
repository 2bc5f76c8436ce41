-- ===== src/Devices/Handler.antt =====
-- deviceManager.ts: what the operations of the manager do to the Map, and the handler over a
-- sequence of messages.
use matterbridge.Base.{
  ℕ, ◌+◌, ◌-◌, ◌≡◌, refl, ◌∙◌, inl, inr, Bool, true, false, not, Option, none, some, List, [], ◌∷◌,
  arith, if◌then◌else◌, All, Result, ok, err, Result-cases, length-map_delete, length-map_set,
  map_delete, map_get-map_delete, map_get-map_set, map_has-map_delete, map_has-map_set, map_set,
  same_text, same_text_refl,
}
use matterbridge.Devices.{
  BaseDevice, Device, DeviceManager, DeviceError, required_id, plain, DeviceRequest, DeviceResponse,
  device_is, get_log_level, set_log_level, devices_length, devices_size, devices_has, devices_get,
  devices_set, devices_remove, devices_clear, devices_basearray, other_request, set_device, remove,
  msg_handler, size, has, get,
}
use matterbridge.Devices.Store.{IsValid, msg_handler-IsValid}

-- The Map after storing a device: the id gives the device, every other id is as before, and the
-- size has grown by one exactly if the id was absent.
pub record IsStoredIn {E : Type 0} (m m' : DeviceManager E) (id : List ℕ) (d : Device E)
    : Type 0 where
  pub gets : (k : List ℕ) → get m' k ≡ (if same_text id k then some d else get m k)
  pub has_it : (k : List ℕ) → has m' k ≡ (if same_text id k then true else has m k)
  pub grows : size m' ≡ (if has m id then size m else size m + 1)

-- The Map after removing an id: it gives nothing, every other id is as before, and the size has
-- shrunk by one exactly if the id was present.
pub record IsRemovedFrom {E : Type 0} (m m' : DeviceManager E) (id : List ℕ) : Type 0 where
  pub gets : (k : List ℕ) → get m' k ≡ (if same_text id k then none else get m k)
  pub has_it : (k : List ℕ) → has m' k ≡ (if same_text id k then false else has m k)
  pub shrinks : size m' ≡ (if has m id then size m - 1 else size m)

module _ {E : Type 0} (m : DeviceManager E) where
  -- Storing a device that has a unique id returns the device; afterwards that id gives the device,
  -- every other id is as before, and the size has grown by one exactly if the id was absent.
  pub set_device_lem :
      (d : Device E) (id : List ℕ)
      → required_id d.base.unique_id ≡ ok id
      → (m' : DeviceManager E) × (set_device m d ≡ ok (m', d)) × IsStoredIn m m' id d
  unfolding set_device get has size
  set_device_lem d id e = (
    record m { devices = map_set id d m.devices },
    rw e refl,
    record {
      gets = λ k. map_get-map_set id k d m.devices;
      has_it = λ k. map_has-map_set id k d m.devices;
      grows = length-map_set id d m.devices;
    },
  )

  -- In a valid manager, removing a device that has a unique id tells whether the id was present;
  -- afterwards it is absent, every other id is as before, and the size has shrunk by one exactly
  -- if it was present.
  pub remove_lem :
      IsValid m
      → (d : Device E) (id : List ℕ) → required_id d.base.unique_id ≡ ok id
      → (m' : DeviceManager E) × (remove m d ≡ ok (m', has m id)) × IsRemovedFrom m m' id
  unfolding remove get has size
  remove_lem v d id e = (
    record m { devices = map_delete id m.devices },
    rw e refl,
    record {
      gets = λ k. map_get-map_delete id k m.devices v.distinct;
      has_it = λ k. map_has-map_delete id k m.devices v.distinct;
      shrinks = length-map_delete id m.devices;
    },
  )

-- The state after a message; one that throws leaves the state.
abbrev pub state_after :
    {E : Type 0}
    → DeviceManager E
    → Result DeviceError (DeviceManager E × Option DeviceResponse)
    → DeviceManager E
state_after m (ok (m', response)) = m'
state_after m (err e) = m

abbrev pub handle : {E : Type 0} → DeviceManager E → DeviceRequest → DeviceManager E
handle m q = state_after m (msg_handler m q)

abbrev pub handle_all : {E : Type 0} → DeviceManager E → List DeviceRequest → DeviceManager E
handle_all m [] = m
handle_all m (q ∷ qs) = handle_all (handle m q) qs

abbrev pub is_other : List ℕ → Result DeviceError (List ℕ) → Bool
is_other id (ok k) = not (same_text k id)
is_other id (err e) = true

-- A message that neither stores nor removes the device of an id, nor clears the Map.
abbrev pub keeps : List ℕ → DeviceRequest → Bool
keeps id (devices_set b) = is_other id (required_id b.unique_id)
keeps id (devices_remove b) = is_other id (required_id b.unique_id)
keeps id devices_clear = false
keeps id q = true

handle-IsValid :
    {E : Type 0} (m : DeviceManager E) (q : DeviceRequest) → IsValid m → IsValid (handle m q)
handle-IsValid m q v = elim (Result-cases (msg_handler m q)) [
  | inl (r, e) ↦ rw e (msg_handler-IsValid m v q e)
  | inr (x, e) ↦ rw e v
]

module _ {E : Type 0} (m : DeviceManager E) (v : IsValid m) (id : List ℕ) where
  get-set_other :
      (b : BaseDevice)
      → keeps id (devices_set b) ≡ true
      → get (handle m (devices_set b)) id ≡ get m id
  unfolding msg_handler set_device get
  get-set_other b h = elim (Result-cases (required_id b.unique_id)) [
    | inl (k, e) ↦ rw e (ground (arith, map_get-map_set k id (plain b) m.devices, e, h))
    | inr (x, e) ↦ rw e refl
  ]

  get-remove_other :
      (b : BaseDevice)
      → keeps id (devices_remove b) ≡ true
      → get (handle m (devices_remove b)) id ≡ get m id
  unfolding msg_handler remove get
  get-remove_other b h = elim (Result-cases (required_id b.unique_id)) [
    | inl (k, e) ↦ rw e (ground (arith, map_get-map_delete k id m.devices v.distinct, e, h))
    | inr (x, e) ↦ rw e refl
  ]

  get-handle_other : (q : DeviceRequest) → keeps id q ≡ true → get (handle m q) id ≡ get m id
  unfolding msg_handler get
  get-handle_other get_log_level h = refl
  get-handle_other (set_log_level level) h = refl
  get-handle_other devices_length h = refl
  get-handle_other devices_size h = refl
  get-handle_other (devices_has k) h = refl
  get-handle_other (devices_get k) h = refl
  get-handle_other (devices_set b) h = get-set_other b h
  get-handle_other (devices_remove b) h = get-remove_other b h
  get-handle_other devices_clear h = cc
  get-handle_other (devices_basearray p) h = refl
  get-handle_other other_request h = refl

get-handle_all_other :
    {E : Type 0} (m : DeviceManager E) (id : List ℕ) (qs : List DeviceRequest)
    → IsValid m
    → All (λ q. keeps id q ≡ true) qs
    → get (handle_all m qs) id ≡ get m id
get-handle_all_other m id [] v all = refl
get-handle_all_other m id (q ∷ qs) v all =
    get-handle_all_other (handle m q) id qs (handle-IsValid m q v) all.1
    ∙ get-handle_other m v id q all.0

get-set_own :
    {E : Type 0} (m : DeviceManager E) (b : BaseDevice) (id : List ℕ)
    → required_id b.unique_id ≡ ok id
    → get (handle m (devices_set b)) id ≡ some (plain b)
unfolding msg_handler set_device get
get-set_own m b id e =
    rw e (ground (arith, map_get-map_set id id (plain b) m.devices, same_text_refl id))

get-response :
    {E : Type 0} (m : DeviceManager E) (b : BaseDevice) (id : List ℕ)
    → get m id ≡ some (plain b)
    → msg_handler m (devices_get id) ≡ ok (m, some (device_is (some b)))
unfolding msg_handler
get-response m b id e = rw e refl

-- From a valid manager: once a message has stored a device under its unique id, a message that
-- asks for that id is answered with this device, after any messages that neither store nor remove
-- a device of that id nor clear the Map.
pub msg_handler-history :
    {E : Type 0} (m : DeviceManager E) (b : BaseDevice) (id : List ℕ) (qs : List DeviceRequest)
    → IsValid m
    → required_id b.unique_id ≡ ok id
    → All (λ q. keeps id q ≡ true) qs
    → msg_handler (handle_all (handle m (devices_set b)) qs) (devices_get id)
      ≡ ok (handle_all (handle m (devices_set b)) qs, some (device_is (some b)))
msg_handler-history m b id qs v e all =
    get-response (handle_all (handle m (devices_set b)) qs) b id (
      get-handle_all_other (handle m (devices_set b)) id qs (handle-IsValid m (devices_set b) v) all
      ∙ get-set_own m b id e)
