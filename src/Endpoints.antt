-- ===== src/Endpoints.antt =====
-- packages/core/src/matterbridgeEndpointHelpers.ts and matterbridgeEndpoint.ts: the device types, the
-- cluster servers and the cluster clients of a MatterbridgeEndpoint. What `behaviors.require` of matter.js
-- does to the servers of an endpoint is a parameter.
pub mod Servers
pub mod Clients
pub mod Children
pub mod Adding
pub mod Attributes
pub mod Updates
pub mod ClusterStates
pub mod Labels
pub mod Tests
pub mod StateTests
use matterbridge.Base.{
  Bool, ◌&&◌, not, Option, none, some, List, [], ◌∷◌, ◌++◌, ◌==◌, if◌then◌else◌,
}
use matterbridge.Clusters.{ClusterType}
use matterbridge.Clusters.Places.{has_cluster}
use matterbridge.DeviceTypes.{DeviceTypeDefinition}

-- device_types has the values of a Map, whose keys are the codes; binding is the client list that
-- MatterbridgeBindingServer has once it is required; client_clusters has the keys of
-- type.clientClusters.
pub record MatterbridgeEndpoint : Type 0 where
  pub device_types : List DeviceTypeDefinition
  pub servers : List ClusterType
  pub binding : Option (List ClusterType)
  pub client_clusters : List ClusterType

-- `deviceTypes.set(code, deviceType)`.
unfoldable pub set_device_type :
    DeviceTypeDefinition → List DeviceTypeDefinition → List DeviceTypeDefinition
set_device_type d [] = d ∷ []
set_device_type d (e ∷ device_types) =
    if e.code == d.code then d ∷ device_types else e ∷ set_device_type d device_types

unfoldable pub set_device_types :
    List DeviceTypeDefinition → List DeviceTypeDefinition → List DeviceTypeDefinition
set_device_types [] device_types = device_types
set_device_types (d ∷ definitions) device_types =
    set_device_types definitions (set_device_type d device_types)

-- The constructor, which gives an endpoint the descriptor.
unfoldable pub new_endpoint : List DeviceTypeDefinition → MatterbridgeEndpoint
unfolding set_device_types
new_endpoint definitions = record {
  device_types = set_device_types definitions [];
  servers = ClusterType.descriptor ∷ [];
  binding = none;
  client_clusters = [];
}

unfoldable pub has_cluster_server : MatterbridgeEndpoint → ClusterType → Bool
has_cluster_server endpoint c = has_cluster endpoint.servers c

-- The clusters for which addClusterServers creates a server, in its order.
abbrev pub created_servers : List ClusterType
created_servers =
    ClusterType.power_source ∷ ClusterType.identify ∷ ClusterType.groups
    ∷ ClusterType.scenes_management ∷ ClusterType.on_off ∷ ClusterType.level_control
    ∷ ClusterType.color_control ∷ ClusterType.window_covering ∷ ClusterType.thermostat
    ∷ ClusterType.fan_control ∷ ClusterType.door_lock ∷ ClusterType.valve_configuration_and_control
    ∷ ClusterType.pump_configuration_and_control ∷ ClusterType.smoke_co_alarm ∷ ClusterType.switch
    ∷ ClusterType.operational_state ∷ ClusterType.boolean_state
    ∷ ClusterType.boolean_state_configuration ∷ ClusterType.power_topology
    ∷ ClusterType.electrical_power_measurement ∷ ClusterType.electrical_energy_measurement
    ∷ ClusterType.temperature_measurement ∷ ClusterType.relative_humidity_measurement
    ∷ ClusterType.pressure_measurement ∷ ClusterType.flow_measurement
    ∷ ClusterType.illuminance_measurement ∷ ClusterType.occupancy_sensing
    ∷ ClusterType.soil_measurement ∷ ClusterType.air_quality
    ∷ ClusterType.carbon_monoxide_concentration_measurement
    ∷ ClusterType.carbon_dioxide_concentration_measurement
    ∷ ClusterType.nitrogen_dioxide_concentration_measurement
    ∷ ClusterType.ozone_concentration_measurement
    ∷ ClusterType.formaldehyde_concentration_measurement ∷ ClusterType.pm1_concentration_measurement
    ∷ ClusterType.pm25_concentration_measurement ∷ ClusterType.pm10_concentration_measurement
    ∷ ClusterType.radon_concentration_measurement
    ∷ ClusterType.total_volatile_organic_compounds_concentration_measurement
    ∷ ClusterType.device_energy_management ∷ ClusterType.device_energy_management_mode ∷ []

-- The clusters for which there is a client behavior.
abbrev pub client_behaviors : List ClusterType
client_behaviors =
    ClusterType.identify ∷ ClusterType.groups ∷ ClusterType.on_off ∷ ClusterType.level_control
    ∷ ClusterType.color_control ∷ ClusterType.occupancy_sensing ∷ ClusterType.scenes_management
    ∷ ClusterType.door_lock ∷ ClusterType.electrical_grid_conditions ∷ ClusterType.fan_control
    ∷ ClusterType.flow_measurement ∷ ClusterType.illuminance_measurement
    ∷ ClusterType.ota_software_update_provider ∷ ClusterType.ota_software_update_requestor
    ∷ ClusterType.pressure_measurement ∷ ClusterType.pump_configuration_and_control
    ∷ ClusterType.relative_humidity_measurement ∷ ClusterType.temperature_measurement
    ∷ ClusterType.thermostat ∷ ClusterType.window_covering ∷ []

-- `if (value)` on the client behavior of a cluster.
unfoldable pub has_client_behavior : ClusterType → Bool
has_client_behavior c = has_cluster client_behaviors c

-- The loop over the clusters of a device type: those that are neither listed nor there.
unfoldable pub listed : List ClusterType → List ClusterType → List ClusterType → List ClusterType
listed there list [] = list
listed there list (c ∷ clusters) =
    listed there
      (if not (has_cluster list c) && not (has_cluster there c) then list ++ (c ∷ []) else list)
      clusters

-- The loop over the device types.
unfoldable pub all_listed :
    (DeviceTypeDefinition → List ClusterType)
    → List ClusterType
    → List ClusterType
    → List DeviceTypeDefinition
    → List ClusterType
unfolding listed
all_listed clusters_of there list [] = list
all_listed clusters_of there list (d ∷ device_types) =
    all_listed clusters_of there (listed there list (clusters_of d)) device_types

-- `[...new Set(clusters)]`.
unfoldable pub distinct_clusters : List ClusterType → List ClusterType → List ClusterType
distinct_clusters seen [] = seen
distinct_clusters seen (c ∷ clusters) =
    distinct_clusters (if has_cluster seen c then seen else seen ++ (c ∷ [])) clusters

-- The client list of MatterbridgeBindingServer.
unfoldable pub binding_clients : Option (List ClusterType) → List ClusterType → List ClusterType
unfolding distinct_clusters
binding_clients none client_list = client_list
binding_clients (some existing) client_list = distinct_clusters [] (existing ++ client_list)

-- The loop of addClusterClients that fills clientClusters.
unfoldable pub add_client_clusters : List ClusterType → List ClusterType → List ClusterType
add_client_clusters client_clusters [] = client_clusters
add_client_clusters client_clusters (c ∷ client_list) =
    add_client_clusters
      (if not (has_cluster client_clusters c) && has_client_behavior c
        then client_clusters ++ (c ∷ [])
        else client_clusters)
      client_list

unfoldable pub add_cluster_clients : MatterbridgeEndpoint → List ClusterType → MatterbridgeEndpoint
unfolding binding_clients add_client_clusters
add_cluster_clients endpoint [] = endpoint
add_cluster_clients endpoint (c ∷ client_list) = record endpoint {
  binding = some (binding_clients endpoint.binding (c ∷ client_list));
  client_clusters = add_client_clusters endpoint.client_clusters (c ∷ client_list);
}

unfoldable pub add_required_cluster_clients : MatterbridgeEndpoint → MatterbridgeEndpoint
unfolding add_cluster_clients all_listed
add_required_cluster_clients endpoint =
    add_cluster_clients endpoint
      (all_listed (λ d. d.required_client_clusters) [] [] endpoint.device_types)

unfoldable pub add_optional_cluster_clients : MatterbridgeEndpoint → MatterbridgeEndpoint
unfolding add_cluster_clients all_listed
add_optional_cluster_clients endpoint =
    add_cluster_clients endpoint
      (all_listed (λ d. d.optional_client_clusters) [] [] endpoint.device_types)

module _ (require : ClusterType → List ClusterType → List ClusterType) where
  -- The tests of addClusterServers, one for each cluster that it creates a server for.
  unfoldable pub create_servers :
      List ClusterType → List ClusterType → List ClusterType → List ClusterType
  create_servers [] server_list servers = servers
  create_servers (c ∷ created) server_list servers =
      create_servers created server_list
        (if has_cluster server_list c then require c servers else servers)

  unfoldable pub add_cluster_servers :
      MatterbridgeEndpoint → List ClusterType → MatterbridgeEndpoint
  unfolding create_servers
  add_cluster_servers endpoint server_list = record endpoint {
    servers = create_servers created_servers server_list endpoint.servers;
  }

  unfoldable pub add_required_cluster_servers : MatterbridgeEndpoint → MatterbridgeEndpoint
  unfolding add_cluster_servers all_listed
  add_required_cluster_servers endpoint =
      add_cluster_servers endpoint
        (all_listed (λ d. d.required_server_clusters) endpoint.servers [] endpoint.device_types)

  unfoldable pub add_optional_cluster_servers : MatterbridgeEndpoint → MatterbridgeEndpoint
  unfolding add_cluster_servers all_listed
  add_optional_cluster_servers endpoint =
      add_cluster_servers endpoint
        (all_listed (λ d. d.optional_server_clusters) endpoint.servers [] endpoint.device_types)
