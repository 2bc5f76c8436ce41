-- ===== src/DeviceTypes/Entry.antt =====
-- packages/core/src/matterbridgeDeviceTypes.ts, chapter 8: entry control device types.
use matterbridge.Base.{[], ◌∷◌}
use matterbridge.Clusters.{ClusterType}
use matterbridge.DeviceTypes.{
  DeviceClasses, DeviceScopes, DeviceTypeDefinition, device_type_definition,
}

abbrev pub door_lock : DeviceTypeDefinition
door_lock =
    record (device_type_definition "DoorLock" 10 DeviceClasses.simple DeviceScopes.endpoint 4) {
      required_server_clusters = ClusterType.identify ∷ ClusterType.door_lock ∷ [];
    }

abbrev pub door_lock_controller : DeviceTypeDefinition
door_lock_controller =
    record (device_type_definition "DoorLockController" 11 DeviceClasses.simple
      DeviceScopes.endpoint 3) {
        required_client_clusters = ClusterType.door_lock ∷ [];
        optional_client_clusters = ClusterType.groups ∷ ClusterType.scenes_management ∷ [];
      }

abbrev pub window_covering : DeviceTypeDefinition
window_covering =
    record (device_type_definition "WindowCovering" 514 DeviceClasses.simple DeviceScopes.endpoint
      6) {
        required_server_clusters = ClusterType.identify ∷ ClusterType.window_covering ∷ [];
        optional_server_clusters = ClusterType.groups ∷ [];
      }

abbrev pub window_covering_controller : DeviceTypeDefinition
window_covering_controller =
    record (device_type_definition "WindowCoveringController" 515 DeviceClasses.simple
      DeviceScopes.endpoint 4) {
        optional_server_clusters = ClusterType.identify ∷ [];
        required_client_clusters = ClusterType.window_covering ∷ [];
        optional_client_clusters = ClusterType.identify ∷ ClusterType.groups ∷ [];
      }

abbrev pub closure : DeviceTypeDefinition
closure =
    record (device_type_definition "Closure" 560 DeviceClasses.simple DeviceScopes.endpoint 1) {
      required_server_clusters = ClusterType.identify ∷ ClusterType.closure_control ∷ [];
    }

abbrev pub closure_panel : DeviceTypeDefinition
closure_panel =
    record (device_type_definition "ClosurePanel" 561 DeviceClasses.simple DeviceScopes.endpoint
      1) { required_server_clusters = ClusterType.closure_dimension ∷ [] }

abbrev pub closure_controller : DeviceTypeDefinition
closure_controller =
    record (device_type_definition "ClosureController" 574 DeviceClasses.simple
      DeviceScopes.endpoint 1) {
        required_client_clusters = ClusterType.closure_control ∷ [];
        optional_client_clusters =
            ClusterType.identify ∷ ClusterType.groups ∷ ClusterType.closure_dimension ∷ [];
      }
