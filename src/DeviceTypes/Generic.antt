-- ===== src/DeviceTypes/Generic.antt =====
-- packages/core/src/matterbridgeDeviceTypes.ts, chapters 11 and 12: generic and robotic device types.
use matterbridge.Base.{[], ◌∷◌}
use matterbridge.Clusters.{ClusterType}
use matterbridge.DeviceTypes.{
  DeviceClasses, DeviceScopes, DeviceTypeDefinition, device_type_definition,
}

abbrev pub mode_select : DeviceTypeDefinition
mode_select =
    record (device_type_definition "ModeSelect" 39 DeviceClasses.simple DeviceScopes.endpoint 1) {
      required_server_clusters = ClusterType.mode_select ∷ [];
    }

abbrev pub aggregator : DeviceTypeDefinition
aggregator =
    record (device_type_definition "Aggregator" 14 DeviceClasses.dynamic DeviceScopes.endpoint 2) {
      optional_server_clusters =
          ClusterType.actions ∷ ClusterType.identify ∷ ClusterType.commissioner_control ∷ [];
    }

abbrev pub robotic_vacuum_cleaner : DeviceTypeDefinition
robotic_vacuum_cleaner =
    record (device_type_definition "RoboticVacuumCleaner" 116 DeviceClasses.simple
      DeviceScopes.endpoint 4) {
        required_server_clusters =
            ClusterType.identify ∷ ClusterType.rvc_run_mode ∷ ClusterType.rvc_operational_state
            ∷ [];
        optional_server_clusters = ClusterType.rvc_clean_mode ∷ ClusterType.service_area ∷ [];
      }
