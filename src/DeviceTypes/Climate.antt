-- ===== src/DeviceTypes/Climate.antt =====
-- packages/core/src/matterbridgeDeviceTypes.ts, chapter 9: HVAC device types.
use matterbridge.Base.{[], ◌∷◌}
use matterbridge.Clusters.{ClusterType}
use matterbridge.DeviceTypes.{
  DeviceClasses, DeviceScopes, DeviceTypeDefinition, device_type_definition,
}

abbrev pub thermostat : DeviceTypeDefinition
thermostat =
    record (device_type_definition "Thermostat" 769 DeviceClasses.simple DeviceScopes.endpoint 5) {
      required_server_clusters = ClusterType.identify ∷ ClusterType.thermostat ∷ [];
      optional_server_clusters =
          ClusterType.groups ∷ ClusterType.thermostat_user_interface_configuration
          ∷ ClusterType.energy_preference ∷ [];
      optional_client_clusters =
          ClusterType.fan_control ∷ ClusterType.temperature_measurement
          ∷ ClusterType.relative_humidity_measurement ∷ ClusterType.occupancy_sensing ∷ [];
    }

abbrev pub fan : DeviceTypeDefinition
fan = record (device_type_definition "Fan" 43 DeviceClasses.simple DeviceScopes.endpoint 4) {
  required_server_clusters =
      ClusterType.identify ∷ ClusterType.groups ∷ ClusterType.fan_control ∷ [];
  optional_server_clusters = ClusterType.on_off ∷ [];
}

abbrev pub air_purifier : DeviceTypeDefinition
air_purifier =
    record (device_type_definition "AirPurifier" 45 DeviceClasses.simple DeviceScopes.endpoint 2) {
      required_server_clusters = ClusterType.identify ∷ ClusterType.fan_control ∷ [];
      optional_server_clusters =
          ClusterType.groups ∷ ClusterType.on_off ∷ ClusterType.hepa_filter_monitoring
          ∷ ClusterType.activated_carbon_filter_monitoring ∷ [];
    }

abbrev pub thermostat_controller : DeviceTypeDefinition
thermostat_controller =
    record (device_type_definition "ThermostatController" 778 DeviceClasses.simple
      DeviceScopes.endpoint 1) {
        required_client_clusters = ClusterType.thermostat ∷ [];
        optional_client_clusters =
            ClusterType.identify ∷ ClusterType.groups ∷ ClusterType.scenes_management ∷ [];
      }
