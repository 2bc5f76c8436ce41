-- ===== src/Endpoints/Tests.antt =====
-- Endpoints of some device types, and their children, and the theorems there.
use matterbridge.Base.{
  ℕ, ◌≡◌, refl, ◌&&◌, ◌||◌, none, List, [], ◌∷◌, ◌++◌, arith, map_get, map_get-map_set, map_set,
  same_text, same_text_refl, same_text,
}
use matterbridge.Clusters.{ClusterType}
use matterbridge.Clusters.Places.{place, has_cluster}
use matterbridge.DeviceTypes.Lighting.{on_off_light}
use matterbridge.DeviceTypes.Switches.{on_off_light_switch}
use matterbridge.DeviceTypes.Sensors.{temperature_sensor}
use matterbridge.Endpoints.{
  MatterbridgeEndpoint, new_endpoint, has_cluster_server, created_servers,
  add_required_cluster_servers, add_optional_cluster_servers,
}
use matterbridge.Endpoints.Servers.{lists_cluster, Requires, add_required_cluster_servers_lem}
use matterbridge.Endpoints.Children.{
  cut_out, for_each, Children, get_child_endpoint_by_id, endpoint_id, add_child_device_type,
  add_child_device_type_with_cluster_server,
}
use matterbridge.Endpoints.Adding.{or_new, Adds, add_child_device_type_with_cluster_server_lem}

abbrev require : ClusterType → List ClusterType → List ClusterType
require c servers = c ∷ servers

require-Requires : Requires require
require-Requires c servers d = ground arith

add_required_cluster_servers_lem_example :
    has_cluster_server
      (add_optional_cluster_servers require
        (add_required_cluster_servers require (new_endpoint (on_off_light ∷ []))))
      ClusterType.on_off
    ≡ has_cluster_server (new_endpoint (on_off_light ∷ [])) ClusterType.on_off
      || (has_cluster created_servers ClusterType.on_off
          && (lists_cluster
                (λ d. d.required_server_clusters)
                (new_endpoint (on_off_light ∷ [])).device_types
                ClusterType.on_off
              || lists_cluster
                  (λ d. d.optional_server_clusters)
                  (new_endpoint (on_off_light ∷ [])).device_types
                  ClusterType.on_off))
add_required_cluster_servers_lem_example =
    add_required_cluster_servers_lem require require-Requires (new_endpoint (on_off_light ∷ []))
      ClusterType.on_off

abbrev light_switch : MatterbridgeEndpoint
light_switch = new_endpoint (on_off_light_switch ∷ [])

abbrev hash : List ℕ → List ℕ
hash name = b'f' ∷ []

abbrev add_part : List ℕ → MatterbridgeEndpoint → Children → Children
add_part = map_set

add_part-Adds : Adds add_part
unfolding get_child_endpoint_by_id
add_part-Adds id child children h =
    rw (map_get-map_set id id child children, same_text_refl id) refl

abbrev room : List ℕ
room = b'r' ∷ b'o' ∷ b'o' ∷ b'm' ∷ []

abbrev room_children : Children
room_children = (room, new_endpoint (on_off_light ∷ [])) ∷ []

add_child_device_type_with_cluster_server_lem_example :
    has_cluster_server
      (add_child_device_type_with_cluster_server hash add_part require room
        (temperature_sensor ∷ [])
        (ClusterType.descriptor ∷ [])
        room_children).0
      ClusterType.identify
    ≡ has_cluster_server
        (or_new (temperature_sensor ∷ []) (get_child_endpoint_by_id room room_children))
        ClusterType.identify
      || (has_cluster created_servers ClusterType.identify
          && (has_cluster (ClusterType.descriptor ∷ []) ClusterType.identify
              || lists_cluster
                  (λ d. d.required_server_clusters)
                  (temperature_sensor ∷ [])
                  ClusterType.identify))
add_child_device_type_with_cluster_server_lem_example =
    add_child_device_type_with_cluster_server_lem hash add_part require require-Requires room
      (temperature_sensor ∷ []) (ClusterType.descriptor ∷ []) room_children ClusterType.identify

room-endpoint_id : endpoint_id hash room ≡ room
unfolding endpoint_id
room-endpoint_id = refl

-- A child whose name has a space is not found again by its name.
room_1_is_not_found :
    get_child_endpoint_by_id
      (room ++ (b' ' ∷ b'1' ∷ []))
      (add_child_device_type hash add_part
        (room ++ (b' ' ∷ b'1' ∷ []))
        (temperature_sensor ∷ [])
        []).1
    ≡ none
unfolding add_child_device_type get_child_endpoint_by_id map_get map_set same_text
room_1_is_not_found = refl

-- Of four servers that a child has, two passes leave one in the list.
two_passes :
    for_each
      (ClusterType.identify ∷ ClusterType.groups ∷ ClusterType.on_off ∷ ClusterType.level_control
        ∷ [])
      (for_each
        (ClusterType.identify ∷ ClusterType.groups ∷ ClusterType.on_off ∷ ClusterType.level_control
          ∷ [])
        (ClusterType.identify ∷ ClusterType.groups ∷ ClusterType.on_off ∷ ClusterType.level_control
          ∷ []))
    ≡ ClusterType.level_control ∷ []
unfolding place cut_out
two_passes = refl
