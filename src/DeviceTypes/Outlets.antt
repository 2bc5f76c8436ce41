-- ===== src/DeviceTypes/Outlets.antt =====
-- packages/core/src/matterbridgeDeviceTypes.ts, chapter 5: smart plugs, outlets and other actuators.
use matterbridge.Base.{[], ◌∷◌}
use matterbridge.Clusters.{ClusterType}
use matterbridge.DeviceTypes.{
  DeviceClasses, DeviceScopes, DeviceTypeDefinition, device_type_definition,
}

abbrev pub on_off_plug_in_unit : DeviceTypeDefinition
on_off_plug_in_unit =
    record (device_type_definition "OnOffPlugInUnit" 266 DeviceClasses.simple DeviceScopes.endpoint
      4) {
        required_server_clusters =
            ClusterType.identify ∷ ClusterType.groups ∷ ClusterType.scenes_management
            ∷ ClusterType.on_off ∷ [];
        optional_server_clusters = ClusterType.level_control ∷ [];
        optional_client_clusters = ClusterType.occupancy_sensing ∷ [];
      }

abbrev pub dimmable_plug_in_unit : DeviceTypeDefinition
dimmable_plug_in_unit =
    record (device_type_definition "DimmablePlugInUnit" 267 DeviceClasses.simple
      DeviceScopes.endpoint 5) {
        required_server_clusters =
            ClusterType.identify ∷ ClusterType.groups ∷ ClusterType.scenes_management
            ∷ ClusterType.on_off ∷ ClusterType.level_control ∷ [];
        optional_client_clusters = ClusterType.occupancy_sensing ∷ [];
      }

abbrev pub mounted_on_off_control : DeviceTypeDefinition
mounted_on_off_control =
    record (device_type_definition "MountedOnOffControl" 271 DeviceClasses.simple
      DeviceScopes.endpoint 2) {
        required_server_clusters =
            ClusterType.identify ∷ ClusterType.groups ∷ ClusterType.scenes_management
            ∷ ClusterType.on_off ∷ [];
        optional_server_clusters = ClusterType.level_control ∷ [];
        optional_client_clusters = ClusterType.occupancy_sensing ∷ [];
      }

abbrev pub mounted_dimmable_load_control : DeviceTypeDefinition
mounted_dimmable_load_control =
    record (device_type_definition "MountedDimmableLoadControl" 272 DeviceClasses.simple
      DeviceScopes.endpoint 2) {
        required_server_clusters =
            ClusterType.identify ∷ ClusterType.groups ∷ ClusterType.scenes_management
            ∷ ClusterType.on_off ∷ ClusterType.level_control ∷ [];
        optional_client_clusters = ClusterType.occupancy_sensing ∷ [];
      }

abbrev pub pump : DeviceTypeDefinition
pump = record (device_type_definition "Pump" 771 DeviceClasses.simple DeviceScopes.endpoint 3) {
  required_server_clusters =
      ClusterType.on_off ∷ ClusterType.pump_configuration_and_control ∷ ClusterType.identify ∷ [];
  optional_server_clusters =
      ClusterType.level_control ∷ ClusterType.groups ∷ ClusterType.scenes_management
      ∷ ClusterType.temperature_measurement ∷ ClusterType.pressure_measurement
      ∷ ClusterType.flow_measurement ∷ [];
  optional_client_clusters =
      ClusterType.temperature_measurement ∷ ClusterType.pressure_measurement
      ∷ ClusterType.flow_measurement ∷ ClusterType.occupancy_sensing ∷ [];
}

abbrev pub water_valve : DeviceTypeDefinition
water_valve =
    record (device_type_definition "WaterValve" 66 DeviceClasses.simple DeviceScopes.endpoint 1) {
      required_server_clusters =
          ClusterType.identify ∷ ClusterType.valve_configuration_and_control ∷ [];
      optional_server_clusters = ClusterType.flow_measurement ∷ [];
      optional_client_clusters = ClusterType.flow_measurement ∷ [];
    }

abbrev pub irrigation_system : DeviceTypeDefinition
irrigation_system =
    record (device_type_definition "IrrigationSystem" 64 DeviceClasses.simple DeviceScopes.endpoint
      1) {
        optional_server_clusters =
            ClusterType.identify ∷ ClusterType.operational_state ∷ ClusterType.flow_measurement
            ∷ [];
        optional_client_clusters = ClusterType.flow_measurement ∷ [];
        composed_of = water_valve.code ∷ [];
      }
