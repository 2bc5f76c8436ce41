-- ===== src/DeviceTypes/Basic.antt =====
-- packages/core/src/matterbridgeDeviceTypes.ts, chapters 1 and 2: base and utility device types.
use matterbridge.Base.{[], ◌∷◌}
use matterbridge.Clusters.{ClusterType}
use matterbridge.DeviceTypes.{
  DeviceClasses, DeviceScopes, DeviceTypeDefinition, device_type_definition,
}

abbrev pub base_device_type : DeviceTypeDefinition
base_device_type =
    record (device_type_definition "BaseDeviceType" 0 DeviceClasses.simple DeviceScopes.endpoint
      3) {
        required_server_clusters = ClusterType.descriptor ∷ [];
        optional_server_clusters =
            ClusterType.binding ∷ ClusterType.fixed_label ∷ ClusterType.user_label ∷ [];
      }

abbrev pub root_node : DeviceTypeDefinition
root_node = device_type_definition "RootNode" 22 DeviceClasses.node DeviceScopes.node 4

abbrev pub power_source : DeviceTypeDefinition
power_source =
    record (device_type_definition "PowerSource" 17 DeviceClasses.utility DeviceScopes.node 1) {
      required_server_clusters = ClusterType.power_source ∷ [];
    }

abbrev pub ota_requestor : DeviceTypeDefinition
ota_requestor =
    record (device_type_definition "OTARequestor" 18 DeviceClasses.utility DeviceScopes.node 1) {
      required_server_clusters = ClusterType.ota_software_update_requestor ∷ [];
      required_client_clusters = ClusterType.ota_software_update_provider ∷ [];
    }

abbrev pub ota_provider : DeviceTypeDefinition
ota_provider =
    record (device_type_definition "OTAProvider" 20 DeviceClasses.utility DeviceScopes.node 1) {
      required_server_clusters = ClusterType.ota_software_update_provider ∷ [];
      optional_client_clusters = ClusterType.ota_software_update_requestor ∷ [];
    }

abbrev pub bridged_node : DeviceTypeDefinition
bridged_node =
    record (device_type_definition "BridgedNode" 19 DeviceClasses.utility DeviceScopes.endpoint 3) {
      required_server_clusters = ClusterType.bridged_device_basic_information ∷ [];
      optional_server_clusters =
          ClusterType.power_source ∷ ClusterType.ecosystem_information
          ∷ ClusterType.administrator_commissioning ∷ [];
    }

abbrev pub electrical_sensor : DeviceTypeDefinition
electrical_sensor =
    record (device_type_definition "ElectricalSensor" 1296 DeviceClasses.utility
      DeviceScopes.endpoint 1) {
        required_server_clusters = ClusterType.power_topology ∷ [];
        optional_server_clusters =
            ClusterType.electrical_power_measurement ∷ ClusterType.electrical_energy_measurement
            ∷ [];
        required_server_clusters_one_of =
            ClusterType.electrical_power_measurement ∷ ClusterType.electrical_energy_measurement
            ∷ [];
      }

abbrev pub device_energy_management : DeviceTypeDefinition
device_energy_management =
    record (device_type_definition "DeviceEnergyManagement" 1293 DeviceClasses.utility
      DeviceScopes.endpoint 3) {
        required_server_clusters = ClusterType.device_energy_management ∷ [];
        optional_server_clusters = ClusterType.device_energy_management_mode ∷ [];
        optional_client_clusters = ClusterType.electrical_grid_conditions ∷ [];
      }
