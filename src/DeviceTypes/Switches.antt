-- ===== src/DeviceTypes/Switches.antt =====
-- packages/core/src/matterbridgeDeviceTypes.ts, chapter 6: switches and controls.
use matterbridge.Base.{[], ◌∷◌}
use matterbridge.Clusters.{ClusterType}
use matterbridge.DeviceTypes.{
  DeviceClasses, DeviceScopes, DeviceTypeDefinition, device_type_definition,
}

abbrev pub on_off_light_switch : DeviceTypeDefinition
on_off_light_switch =
    record (device_type_definition "OnOffLightSwitch" 259 DeviceClasses.simple DeviceScopes.endpoint
      3) {
        required_server_clusters = ClusterType.identify ∷ [];
        required_client_clusters = ClusterType.identify ∷ ClusterType.on_off ∷ [];
        optional_client_clusters = ClusterType.groups ∷ ClusterType.scenes_management ∷ [];
      }

abbrev pub dimmer_switch : DeviceTypeDefinition
dimmer_switch =
    record (device_type_definition "DimmerSwitch" 260 DeviceClasses.simple DeviceScopes.endpoint
      3) {
        required_server_clusters = ClusterType.identify ∷ [];
        required_client_clusters =
            ClusterType.identify ∷ ClusterType.on_off ∷ ClusterType.level_control ∷ [];
        optional_client_clusters = ClusterType.groups ∷ ClusterType.scenes_management ∷ [];
      }

abbrev pub color_dimmer_switch : DeviceTypeDefinition
color_dimmer_switch =
    record (device_type_definition "ColorDimmerSwitch" 261 DeviceClasses.simple
      DeviceScopes.endpoint 3) {
        required_server_clusters = ClusterType.identify ∷ [];
        required_client_clusters =
            ClusterType.identify ∷ ClusterType.on_off ∷ ClusterType.level_control
            ∷ ClusterType.color_control ∷ [];
        optional_client_clusters = ClusterType.groups ∷ ClusterType.scenes_management ∷ [];
      }

abbrev pub control_bridge : DeviceTypeDefinition
control_bridge =
    record (device_type_definition "ControlBridge" 2112 DeviceClasses.simple DeviceScopes.endpoint
      3) {
        required_server_clusters = ClusterType.identify ∷ [];
        required_client_clusters =
            ClusterType.identify ∷ ClusterType.groups ∷ ClusterType.scenes_management
            ∷ ClusterType.on_off ∷ ClusterType.level_control ∷ ClusterType.color_control ∷ [];
        optional_client_clusters =
            ClusterType.illuminance_measurement ∷ ClusterType.occupancy_sensing ∷ [];
      }

abbrev pub pump_controller : DeviceTypeDefinition
pump_controller =
    record (device_type_definition "PumpController" 772 DeviceClasses.simple DeviceScopes.endpoint
      4) {
        required_server_clusters = ClusterType.identify ∷ [];
        required_client_clusters =
            ClusterType.on_off ∷ ClusterType.pump_configuration_and_control ∷ [];
        optional_client_clusters =
            ClusterType.identify ∷ ClusterType.groups ∷ ClusterType.level_control
            ∷ ClusterType.scenes_management ∷ ClusterType.temperature_measurement
            ∷ ClusterType.pressure_measurement ∷ ClusterType.flow_measurement ∷ [];
      }

abbrev pub generic_switch : DeviceTypeDefinition
generic_switch =
    record (device_type_definition "GenericSwitch" 15 DeviceClasses.simple DeviceScopes.endpoint
      3) { required_server_clusters = ClusterType.identify ∷ ClusterType.switch ∷ [] }
