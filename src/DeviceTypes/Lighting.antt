-- ===== src/DeviceTypes/Lighting.antt =====
-- packages/core/src/matterbridgeDeviceTypes.ts, chapter 4: lighting device types.
use matterbridge.Base.{[], ◌∷◌}
use matterbridge.Clusters.{ClusterType}
use matterbridge.DeviceTypes.{
  DeviceClasses, DeviceScopes, DeviceTypeDefinition, device_type_definition,
}

abbrev pub on_off_light : DeviceTypeDefinition
on_off_light =
    record (device_type_definition "OnOffLight" 256 DeviceClasses.simple DeviceScopes.endpoint 3) {
      required_server_clusters =
          ClusterType.identify ∷ ClusterType.groups ∷ ClusterType.scenes_management
          ∷ ClusterType.on_off ∷ [];
      optional_server_clusters = ClusterType.level_control ∷ [];
      optional_client_clusters = ClusterType.occupancy_sensing ∷ [];
    }

abbrev pub dimmable_light : DeviceTypeDefinition
dimmable_light =
    record (device_type_definition "DimmableLight" 257 DeviceClasses.simple DeviceScopes.endpoint
      3) {
        required_server_clusters =
            ClusterType.identify ∷ ClusterType.groups ∷ ClusterType.scenes_management
            ∷ ClusterType.on_off ∷ ClusterType.level_control ∷ [];
        optional_client_clusters = ClusterType.occupancy_sensing ∷ [];
      }

abbrev pub color_temperature_light : DeviceTypeDefinition
color_temperature_light =
    record (device_type_definition "ColorTemperatureLight" 268 DeviceClasses.simple
      DeviceScopes.endpoint 4) {
        required_server_clusters =
            ClusterType.identify ∷ ClusterType.groups ∷ ClusterType.scenes_management
            ∷ ClusterType.on_off ∷ ClusterType.level_control ∷ ClusterType.color_control ∷ [];
        optional_client_clusters = ClusterType.occupancy_sensing ∷ [];
      }

abbrev pub extended_color_light : DeviceTypeDefinition
extended_color_light =
    record (device_type_definition "ExtendedColorLight" 269 DeviceClasses.simple
      DeviceScopes.endpoint 4) {
        required_server_clusters =
            ClusterType.identify ∷ ClusterType.groups ∷ ClusterType.scenes_management
            ∷ ClusterType.on_off ∷ ClusterType.level_control ∷ ClusterType.color_control ∷ [];
        optional_client_clusters = ClusterType.occupancy_sensing ∷ [];
      }
