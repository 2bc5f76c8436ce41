-- ===== src/DeviceTypes/Cameras.antt =====
-- packages/core/src/matterbridgeDeviceTypes.ts, chapter 16: camera device types.
use matterbridge.Base.{[], ◌∷◌}
use matterbridge.Clusters.{ClusterType}
use matterbridge.DeviceTypes.{
  DeviceClasses, DeviceScopes, DeviceTypeDefinition, device_type_definition,
}

abbrev pub camera : DeviceTypeDefinition
camera = record (device_type_definition "Camera" 322 DeviceClasses.simple DeviceScopes.endpoint 1) {
  required_server_clusters =
      ClusterType.camera_av_stream_management ∷ ClusterType.web_rtc_transport_provider ∷ [];
  optional_server_clusters =
      ClusterType.identify ∷ ClusterType.occupancy_sensing ∷ ClusterType.zone_management
      ∷ ClusterType.camera_av_settings_user_level_management
      ∷ ClusterType.web_rtc_transport_requestor ∷ ClusterType.push_av_stream_transport ∷ [];
  required_client_clusters = ClusterType.web_rtc_transport_requestor ∷ [];
  optional_client_clusters = ClusterType.web_rtc_transport_provider ∷ [];
}

abbrev pub floodlight_camera : DeviceTypeDefinition
floodlight_camera =
    device_type_definition "FloodlightCamera" 324 DeviceClasses.simple DeviceScopes.endpoint 1

abbrev pub video_doorbell : DeviceTypeDefinition
video_doorbell =
    device_type_definition "VideoDoorbell" 323 DeviceClasses.simple DeviceScopes.endpoint 1

abbrev pub intercom : DeviceTypeDefinition
intercom =
    record (device_type_definition "Intercom" 320 DeviceClasses.simple DeviceScopes.endpoint 2) {
      required_server_clusters =
          ClusterType.camera_av_stream_management ∷ ClusterType.web_rtc_transport_provider
          ∷ ClusterType.web_rtc_transport_requestor ∷ [];
      optional_server_clusters =
          ClusterType.identify ∷ ClusterType.camera_av_settings_user_level_management ∷ [];
      required_client_clusters =
          ClusterType.web_rtc_transport_provider ∷ ClusterType.web_rtc_transport_requestor ∷ [];
      optional_client_clusters = ClusterType.chime ∷ [];
    }

abbrev pub audio_doorbell : DeviceTypeDefinition
audio_doorbell =
    record (device_type_definition "AudioDoorbell" 321 DeviceClasses.simple DeviceScopes.endpoint
      2) {
        required_server_clusters =
            ClusterType.identify ∷ ClusterType.switch ∷ ClusterType.camera_av_stream_management
            ∷ ClusterType.web_rtc_transport_provider ∷ [];
        optional_server_clusters =
            ClusterType.web_rtc_transport_requestor ∷ ClusterType.push_av_stream_transport ∷ [];
        required_client_clusters = ClusterType.web_rtc_transport_requestor ∷ ClusterType.chime ∷ [];
        optional_client_clusters = ClusterType.web_rtc_transport_provider ∷ [];
      }

abbrev pub snapshot_camera : DeviceTypeDefinition
snapshot_camera =
    record (device_type_definition "SnapshotCamera" 325 DeviceClasses.simple DeviceScopes.endpoint
      1) {
        required_server_clusters = ClusterType.camera_av_stream_management ∷ [];
        optional_server_clusters =
            ClusterType.identify ∷ ClusterType.occupancy_sensing ∷ ClusterType.zone_management
            ∷ ClusterType.camera_av_settings_user_level_management ∷ [];
      }

abbrev pub chime : DeviceTypeDefinition
chime = record (device_type_definition "Chime" 326 DeviceClasses.simple DeviceScopes.endpoint 1) {
  required_server_clusters = ClusterType.chime ∷ [];
  optional_server_clusters = ClusterType.identify ∷ [];
}

abbrev pub camera_controller : DeviceTypeDefinition
camera_controller =
    record (device_type_definition "CameraController" 327 DeviceClasses.simple DeviceScopes.endpoint
      1) {
        required_server_clusters = ClusterType.web_rtc_transport_requestor ∷ [];
        required_client_clusters = ClusterType.web_rtc_transport_provider ∷ [];
        optional_client_clusters =
            ClusterType.identify ∷ ClusterType.power_source ∷ ClusterType.occupancy_sensing
            ∷ ClusterType.zone_management ∷ ClusterType.camera_av_stream_management
            ∷ ClusterType.camera_av_settings_user_level_management
            ∷ ClusterType.push_av_stream_transport ∷ ClusterType.tls_certificate_management
            ∷ ClusterType.tls_client_management ∷ [];
      }

abbrev pub doorbell : DeviceTypeDefinition
doorbell =
    record (device_type_definition "Doorbell" 328 DeviceClasses.simple DeviceScopes.endpoint 2) {
      required_server_clusters = ClusterType.identify ∷ ClusterType.switch ∷ [];
      required_client_clusters = ClusterType.chime ∷ [];
    }
