-- ===== src/Platforms/Bridged.antt =====
-- matterbridgePlatform.ts: what registering a device does to it and to the others.
use matterbridge.Base.{
  ℕ, ◌≡◌, refl, inl, inr, Bool, true, false, ◌&&◌, ◌||◌, not, Option, none, some, List, [], ◌∷◌,
  ◌++◌, arith, if◌then◌else◌, Bool-cases, map_get, map_get-map_set, same_text, same_text, map_get,
  same_text,
}
use matterbridge.Clusters.{ClusterType}
use matterbridge.Clusters.Places.{same_cluster, has_cluster-same, has_cluster}
use matterbridge.DeviceTypes.{DeviceTypeDefinition}
use matterbridge.DeviceTypes.Basic.{bridged_node}
use matterbridge.Endpoints.{set_device_type, has_cluster_server}
use matterbridge.Endpoints.Servers.{Requires}
use matterbridge.Platforms.{
  Device, MatterbridgePlatform, filled, required, has_device_name, is_bridged, has_device_type,
  is_listed, list_bridged_node, bridged, bridged_device, begin_named, begin_required,
  register_begin, register_end, register_device,
}

abbrev pub bridged_info : ClusterType
bridged_info = ClusterType.bridged_device_basic_information

set_device_type_absent :
    (d : DeviceTypeDefinition) (device_types : List DeviceTypeDefinition)
    → has_device_type d.code device_types ≡ false
    → set_device_type d device_types ≡ device_types ++ (d ∷ [])
unfolding has_device_type set_device_type
set_device_type_absent d [] h = refl
set_device_type_absent d (e ∷ device_types) h =
    ground (arith, h, set_device_type_absent d device_types)

-- An endpoint that is to be bridged and has no bridged node yet.
abbrev pub lacks_node : MatterbridgePlatform → Device → Bool
lacks_node platform d =
    is_bridged d.mode platform.bridge_mode platform.platform_type
    && not (has_device_type bridged_node.code d.endpoint.device_types)

-- The deviceTypeList with the bridged node, if it has none.
abbrev pub with_node : Option (List (ℕ × ℕ)) → Option (List (ℕ × ℕ))
with_node none = none
with_node (some types) = some (
    if is_listed bridged_node.code types
    then types
    else types ++ ((bridged_node.code, bridged_node.revision) ∷ []))

list_bridged_node_lem : (types : Option (List (ℕ × ℕ))) → list_bridged_node types ≡ with_node types
unfolding list_bridged_node
list_bridged_node_lem none = refl
list_bridged_node_lem (some types) = ground arith

-- The device that is registered: the given one, but for three fields.
pub record IsRegisteredAs (platform : MatterbridgePlatform) (d next : Device) : Type 0 where
  pub types : next.endpoint.device_types ≡ (
      if lacks_node platform d
      then d.endpoint.device_types ++ (bridged_node ∷ [])
      else d.endpoint.device_types)
  pub list :
      next.device_type_list
      ≡ (if lacks_node platform d then with_node d.device_type_list else d.device_type_list)
  pub servers :
      (c : ClusterType)
      → has_cluster_server next.endpoint c
        ≡ has_cluster_server d.endpoint c
          || (is_bridged d.mode platform.bridge_mode platform.platform_type
              && same_cluster bridged_info c)
  pub others :
      record next {
        endpoint = record next.endpoint {
          device_types = d.endpoint.device_types;
          servers = d.endpoint.servers;
        };
        device_type_list = d.device_type_list;
      }
      ≡ d

module _ (require : ClusterType → List ClusterType → List ClusterType) where
  bridged-servers :
      Requires require
      → (d : Device) (c : ClusterType)
      → has_cluster_server (bridged require d).endpoint c
        ≡ has_cluster_server d.endpoint c || same_cluster bridged_info c
  unfolding bridged has_cluster_server
  bridged-servers h d c = elim (Bool-cases (has_cluster d.endpoint.servers bridged_info)) [
    | inl e ↦ rw e (ground (arith, e, has_cluster-same d.endpoint.servers bridged_info c))
    | inr e ↦ rw e (h bridged_info d.endpoint.servers c)
  ]

  bridged-types :
      (d : Device)
      → let is_new = not (has_device_type bridged_node.code d.endpoint.device_types) in
        ((bridged require d).endpoint.device_types ≡ (
          if is_new
          then d.endpoint.device_types ++ (bridged_node ∷ [])
          else d.endpoint.device_types))
        × ((bridged require d).device_type_list
            ≡ (if is_new then with_node d.device_type_list else d.device_type_list))
  unfolding bridged
  bridged-types d = elim (Bool-cases (has_device_type bridged_node.code d.endpoint.device_types)) [
    | inl e ↦ rw e (refl, refl)
    | inr e ↦ rw e (
      set_device_type_absent bridged_node d.endpoint.device_types e,
      list_bridged_node_lem d.device_type_list,
    )
  ]

  bridged_device_lem :
      Requires require
      → (platform : MatterbridgePlatform) (d : Device)
      → IsRegisteredAs platform d (bridged_device require platform d)
  unfolding bridged_device bridged
  bridged_device_lem h platform d =
      elim (Bool-cases (is_bridged d.mode platform.bridge_mode platform.platform_type)) [
        | inl e ↦
            let (types, listed) = bridged-types d in
            record {
              types = rw e types;
              list = rw e listed;
              servers = λ c. rw e (bridged-servers h d c);
              others = rw e refl;
            }
        | inr e ↦ record {
          types = rw e refl;
          list = rw e refl;
          servers = λ c. rw e (ground arith);
          others = rw e refl;
        }
      ]

  pub register_device_lem :
      Requires require
      → (platform : MatterbridgePlatform) (d : Device) (id name serial : List ℕ)
      → filled d.unique_id ≡ some id
      → filled d.device_name ≡ some name
      → filled d.serial_number ≡ some serial
      → has_device_name name platform.registered_endpoints ≡ false
      → (next : Device) × IsRegisteredAs platform d next
        × ((added : Bool) (other : List ℕ)
            → map_get other (register_device require platform d added).registered_endpoints ≡ (
                if added && same_text id other
                then some next
                else map_get other platform.registered_endpoints))
  unfolding register_device register_begin register_end begin_required begin_named required
  register_device_lem h platform d id name serial i n s k = (
    bridged_device require platform d,
    bridged_device_lem h platform d,
    λ added other.
        rw (i, n, s, k)
          (elim added
            as (λ b.
              map_get other
                (register_end b (some (id, bridged_device require platform d))
                  platform).registered_endpoints
              ≡ (if b && same_text id other
                  then some (bridged_device require platform d)
                  else map_get other platform.registered_endpoints)) [
                    | true ↦
                        map_get-map_set id other (bridged_device require platform d)
                          platform.registered_endpoints
                    | false ↦ refl
                  ]),
  )
