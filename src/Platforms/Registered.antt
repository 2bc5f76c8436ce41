-- ===== src/Platforms/Registered.antt =====
-- matterbridgePlatform.ts: the devices that are registered stay well formed.
use matterbridge.Base.{
  ℕ, ◌≡◌, refl, sym, ap, subst, ◌∙◌, inl, inr, Bool, true, false, Option, none, some, List, [], ◌∷◌,
  Bool-cases, if-intro, if-intro,
}
use matterbridge.Clusters.{ClusterType}
use matterbridge.Platforms.{
  Device, MatterbridgePlatform, filled, has_device_name, is_bridged, required, bridged_device,
  begin_required, unregister_id, begin_named, register_begin, register_end, register_device,
  unregister_device, unregister_all_devices, check_endpoint_numbers, clear_endpoint_numbers,
}
use matterbridge.Platforms.Names.{
  unwrapped, name_of, IsEntry, AreRegistered, filled_lem, named, required_lem,
  map_set-AreRegistered, map_delete-AreRegistered,
}

module _ (require : ClusterType → List ClusterType → List ClusterType) where
  bridged_device-IsEntry :
      (platform : MatterbridgePlatform) (d : Device) (id : List ℕ)
      → IsEntry (id, d)
      → IsEntry (id, bridged_device require platform d)
        × (name_of (bridged_device require platform d) ≡ name_of d)
  unfolding bridged_device
  bridged_device-IsEntry platform d id h =
      elim (Bool-cases (is_bridged d.mode platform.bridge_mode platform.platform_type)) [
        | inl e ↦ rw e (h, refl)
        | inr e ↦ rw e (h, refl)
      ]

  begin_named-AreRegistered :
      (platform : MatterbridgePlatform) (d : Device) (id name : List ℕ) (added : Bool)
      → filled d.unique_id ≡ some id
      → filled d.device_name ≡ some name
      → AreRegistered platform.registered_endpoints
      → AreRegistered
          (register_end added
            (begin_named require platform d id name)
            platform).registered_endpoints
  unfolding begin_named register_end
  begin_named-AreRegistered platform d id name false h n a =
      if-intro
        (λ (o : Option (List ℕ × Device)).
          AreRegistered (register_end false o platform).registered_endpoints)
        (has_device_name name platform.registered_endpoints) (λ k. a) (λ k. a)
  begin_named-AreRegistered platform d id name true h n a =
      let entry =
        bridged_device-IsEntry platform d id (filled_lem d.unique_id id h, named d name n) in
      let same : name ≡ name_of d = sym (ap unwrapped (filled_lem d.device_name name n)) in
      if-intro
        (λ (o : Option (List ℕ × Device)).
          AreRegistered (register_end true o platform).registered_endpoints)
        (has_device_name name platform.registered_endpoints) (λ k. a)
        (λ k.
          map_set-AreRegistered id (bridged_device require platform d) platform.registered_endpoints
            entry.0
            (subst (λ text. has_device_name text platform.registered_endpoints ≡ false)
              (same ∙ sym entry.1) k)
            a)

  begin_required-AreRegistered :
      (platform : MatterbridgePlatform) (d : Device) (added : Bool)
      (found : Option (List ℕ × List ℕ))
      → required (filled d.unique_id) (filled d.device_name) (filled d.serial_number) ≡ found
      → AreRegistered platform.registered_endpoints
      → AreRegistered
          (register_end added
            (begin_required require platform d found)
            platform).registered_endpoints
  unfolding begin_required register_end
  begin_required-AreRegistered platform d added none h a = a
  begin_required-AreRegistered platform d added (some (id, name)) h a =
      let (unique, named) =
        required_lem (filled d.unique_id) (filled d.device_name) (filled d.serial_number) id name
          h in
      begin_named-AreRegistered platform d id name added unique named a

  unregister_id-AreRegistered :
      (platform : MatterbridgePlatform) (unique : Option (List ℕ))
      → AreRegistered platform.registered_endpoints
      → AreRegistered (unregister_id platform unique).registered_endpoints
  unfolding unregister_id
  unregister_id-AreRegistered platform none a = a
  unregister_id-AreRegistered platform (some id) a =
      map_delete-AreRegistered id platform.registered_endpoints a

-- What is done with the devices of a platform.
pub data Operation : Type 0 where
  register : Device → (added : Bool) → Operation
  unregister : Device → Operation
  unregister_all check_numbers clear_numbers : Operation

abbrev pub operate :
    (ClusterType → List ClusterType → List ClusterType)
    → Operation
    → MatterbridgePlatform
    → MatterbridgePlatform
operate require (register d added) platform = register_device require platform d added
operate require (unregister d) platform = unregister_device platform d
operate require unregister_all platform = unregister_all_devices platform
operate require check_numbers platform = (check_endpoint_numbers platform).0
operate require clear_numbers platform = clear_endpoint_numbers platform

abbrev pub operate_all :
    (ClusterType → List ClusterType → List ClusterType)
    → List Operation
    → MatterbridgePlatform
    → MatterbridgePlatform
operate_all require [] platform = platform
operate_all require (o ∷ operations) platform =
    operate_all require operations (operate require o platform)

operate-AreRegistered :
    (require : ClusterType → List ClusterType → List ClusterType) (o : Operation)
    (platform : MatterbridgePlatform)
    → AreRegistered platform.registered_endpoints
    → AreRegistered (operate require o platform).registered_endpoints
unfolding register_device register_begin unregister_device unregister_all_devices
    check_endpoint_numbers clear_endpoint_numbers
operate-AreRegistered require (register d added) platform a =
    begin_required-AreRegistered require platform d added _ refl a
operate-AreRegistered require (unregister d) platform a =
    unregister_id-AreRegistered require platform (filled d.unique_id) a
operate-AreRegistered require unregister_all platform a = (tt, tt, tt)
operate-AreRegistered require check_numbers platform a = a
operate-AreRegistered require clear_numbers platform a = a

pub operate_all-AreRegistered :
    (require : ClusterType → List ClusterType → List ClusterType) (operations : List Operation)
    (platform : MatterbridgePlatform)
    → AreRegistered platform.registered_endpoints
    → AreRegistered (operate_all require operations platform).registered_endpoints
operate_all-AreRegistered require [] platform a = a
operate_all-AreRegistered require (o ∷ operations) platform a =
    operate_all-AreRegistered require operations (operate require o platform)
      (operate-AreRegistered require o platform a)
