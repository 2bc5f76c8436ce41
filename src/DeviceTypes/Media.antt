-- ===== src/DeviceTypes/Media.antt =====
-- packages/core/src/matterbridgeDeviceTypes.ts, chapter 10: media device types.
use matterbridge.Base.{[], ◌∷◌}
use matterbridge.Clusters.{ClusterType}
use matterbridge.DeviceTypes.{
  DeviceClasses, DeviceScopes, DeviceTypeDefinition, device_type_definition,
}

abbrev pub basic_video_player : DeviceTypeDefinition
basic_video_player =
    record (device_type_definition "BasicVideoPlayer" 40 DeviceClasses.simple DeviceScopes.endpoint
      2) {
        required_server_clusters =
            ClusterType.on_off ∷ ClusterType.media_playback ∷ ClusterType.keypad_input ∷ [];
        optional_server_clusters =
            ClusterType.wake_on_lan ∷ ClusterType.channel ∷ ClusterType.target_navigator
            ∷ ClusterType.media_input ∷ ClusterType.low_power ∷ ClusterType.audio_output
            ∷ ClusterType.content_control ∷ ClusterType.messages ∷ [];
      }

abbrev pub casting_video_player : DeviceTypeDefinition
casting_video_player =
    record (device_type_definition "CastingVideoPlayer" 35 DeviceClasses.simple
      DeviceScopes.endpoint 2) {
        required_server_clusters =
            ClusterType.on_off ∷ ClusterType.media_playback ∷ ClusterType.keypad_input
            ∷ ClusterType.content_launcher ∷ [];
        optional_server_clusters =
            ClusterType.wake_on_lan ∷ ClusterType.channel ∷ ClusterType.target_navigator
            ∷ ClusterType.media_input ∷ ClusterType.low_power ∷ ClusterType.audio_output
            ∷ ClusterType.application_launcher ∷ ClusterType.account_login
            ∷ ClusterType.content_control ∷ ClusterType.messages ∷ [];
      }

abbrev pub speaker : DeviceTypeDefinition
speaker =
    record (device_type_definition "Speaker" 34 DeviceClasses.simple DeviceScopes.endpoint 1) {
      required_server_clusters = ClusterType.on_off ∷ ClusterType.level_control ∷ [];
    }

abbrev pub content_app : DeviceTypeDefinition
content_app =
    record (device_type_definition "ContentApp" 36 DeviceClasses.simple DeviceScopes.endpoint 2) {
      required_server_clusters =
          ClusterType.keypad_input ∷ ClusterType.application_launcher
          ∷ ClusterType.application_basic ∷ [];
      optional_server_clusters =
          ClusterType.channel ∷ ClusterType.target_navigator ∷ ClusterType.media_playback
          ∷ ClusterType.content_launcher ∷ ClusterType.account_login ∷ [];
      optional_client_clusters = ClusterType.content_app_observer ∷ [];
    }

abbrev pub casting_video_client : DeviceTypeDefinition
casting_video_client =
    record (device_type_definition "CastingVideoClient" 41 DeviceClasses.simple
      DeviceScopes.endpoint 2) {
        optional_server_clusters = ClusterType.content_app_observer ∷ [];
        required_client_clusters =
            ClusterType.on_off ∷ ClusterType.keypad_input ∷ ClusterType.content_launcher
            ∷ ClusterType.application_basic ∷ [];
        optional_client_clusters =
            ClusterType.level_control ∷ ClusterType.messages ∷ ClusterType.wake_on_lan
            ∷ ClusterType.channel ∷ ClusterType.target_navigator ∷ ClusterType.media_playback
            ∷ ClusterType.media_input ∷ ClusterType.low_power ∷ ClusterType.audio_output
            ∷ ClusterType.application_launcher ∷ ClusterType.account_login
            ∷ ClusterType.content_control ∷ [];
      }

abbrev pub video_remote_control : DeviceTypeDefinition
video_remote_control =
    record (device_type_definition "VideoRemoteControl" 42 DeviceClasses.simple
      DeviceScopes.endpoint 2) {
        required_client_clusters =
            ClusterType.on_off ∷ ClusterType.media_playback ∷ ClusterType.keypad_input ∷ [];
        optional_client_clusters =
            ClusterType.level_control ∷ ClusterType.wake_on_lan ∷ ClusterType.channel
            ∷ ClusterType.target_navigator ∷ ClusterType.media_input ∷ ClusterType.low_power
            ∷ ClusterType.content_launcher ∷ ClusterType.audio_output
            ∷ ClusterType.application_launcher ∷ ClusterType.account_login
            ∷ ClusterType.content_control ∷ [];
      }
