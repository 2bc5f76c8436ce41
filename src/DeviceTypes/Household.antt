-- ===== src/DeviceTypes/Household.antt =====
-- packages/core/src/matterbridgeDeviceTypes.ts, chapter 13: appliances.
use matterbridge.Base.{[], ◌∷◌}
use matterbridge.Clusters.{ClusterType}
use matterbridge.DeviceTypes.{
  DeviceClasses, DeviceScopes, DeviceTypeDefinition, device_type_definition,
}

abbrev pub laundry_washer : DeviceTypeDefinition
laundry_washer =
    record (device_type_definition "LaundryWasher" 115 DeviceClasses.simple DeviceScopes.endpoint
      2) {
        required_server_clusters = ClusterType.operational_state ∷ [];
        optional_server_clusters =
            ClusterType.identify ∷ ClusterType.laundry_washer_mode ∷ ClusterType.on_off
            ∷ ClusterType.laundry_washer_controls ∷ ClusterType.temperature_control ∷ [];
      }

abbrev pub refrigerator : DeviceTypeDefinition
refrigerator =
    record (device_type_definition "Refrigerator" 112 DeviceClasses.simple DeviceScopes.endpoint
      2) {
        optional_server_clusters =
            ClusterType.identify ∷ ClusterType.refrigerator_and_temperature_controlled_cabinet_mode
            ∷ ClusterType.refrigerator_alarm ∷ [];
      }

abbrev pub room_air_conditioner : DeviceTypeDefinition
room_air_conditioner =
    record (device_type_definition "RoomAirConditioner" 114 DeviceClasses.simple
      DeviceScopes.endpoint 3) {
        required_server_clusters =
            ClusterType.identify ∷ ClusterType.on_off ∷ ClusterType.thermostat ∷ [];
        optional_server_clusters =
            ClusterType.groups ∷ ClusterType.scenes_management ∷ ClusterType.fan_control
            ∷ ClusterType.thermostat_user_interface_configuration
            ∷ ClusterType.temperature_measurement ∷ ClusterType.relative_humidity_measurement
            ∷ ClusterType.hepa_filter_monitoring ∷ ClusterType.activated_carbon_filter_monitoring
            ∷ [];
      }

abbrev pub temperature_controlled_cabinet_cooler : DeviceTypeDefinition
temperature_controlled_cabinet_cooler =
    record (device_type_definition "TemperatureControlledCabinet" 113 DeviceClasses.simple
      DeviceScopes.endpoint 5) {
        required_server_clusters =
            ClusterType.temperature_control
            ∷ ClusterType.refrigerator_and_temperature_controlled_cabinet_mode ∷ [];
        optional_server_clusters = ClusterType.temperature_measurement ∷ [];
      }

abbrev pub temperature_controlled_cabinet_heater : DeviceTypeDefinition
temperature_controlled_cabinet_heater =
    record (device_type_definition "TemperatureControlledCabinet" 113 DeviceClasses.simple
      DeviceScopes.endpoint 5) {
        required_server_clusters =
            ClusterType.temperature_control ∷ ClusterType.oven_mode
            ∷ ClusterType.oven_cavity_operational_state ∷ [];
        optional_server_clusters = ClusterType.temperature_measurement ∷ [];
      }

abbrev pub dishwasher : DeviceTypeDefinition
dishwasher =
    record (device_type_definition "Dishwasher" 117 DeviceClasses.simple DeviceScopes.endpoint 2) {
      required_server_clusters = ClusterType.operational_state ∷ [];
      optional_server_clusters =
          ClusterType.identify ∷ ClusterType.on_off ∷ ClusterType.temperature_control
          ∷ ClusterType.dishwasher_mode ∷ ClusterType.dishwasher_alarm ∷ [];
    }

abbrev pub laundry_dryer : DeviceTypeDefinition
laundry_dryer =
    record (device_type_definition "LaundryDryer" 124 DeviceClasses.simple DeviceScopes.endpoint
      2) {
        required_server_clusters = ClusterType.operational_state ∷ [];
        optional_server_clusters =
            ClusterType.identify ∷ ClusterType.laundry_washer_mode ∷ ClusterType.on_off
            ∷ ClusterType.laundry_dryer_controls ∷ ClusterType.temperature_control ∷ [];
      }

abbrev pub cook_surface : DeviceTypeDefinition
cook_surface =
    record (device_type_definition "CookSurface" 119 DeviceClasses.simple DeviceScopes.endpoint 2) {
      optional_server_clusters =
          ClusterType.temperature_control ∷ ClusterType.temperature_measurement ∷ ClusterType.on_off
          ∷ [];
    }

abbrev pub cooktop : DeviceTypeDefinition
cooktop =
    record (device_type_definition "Cooktop" 120 DeviceClasses.simple DeviceScopes.endpoint 1) {
      required_server_clusters = ClusterType.on_off ∷ [];
      optional_server_clusters = ClusterType.identify ∷ [];
    }

abbrev pub oven : DeviceTypeDefinition
oven = record (device_type_definition "Oven" 123 DeviceClasses.simple DeviceScopes.endpoint 2) {
  optional_server_clusters = ClusterType.identify ∷ [];
}

abbrev pub extractor_hood : DeviceTypeDefinition
extractor_hood =
    record (device_type_definition "ExtractorHood" 122 DeviceClasses.simple DeviceScopes.endpoint
      1) {
        required_server_clusters = ClusterType.fan_control ∷ [];
        optional_server_clusters =
            ClusterType.identify ∷ ClusterType.hepa_filter_monitoring
            ∷ ClusterType.activated_carbon_filter_monitoring ∷ [];
      }

abbrev pub microwave_oven : DeviceTypeDefinition
microwave_oven =
    record (device_type_definition "MicrowaveOven" 121 DeviceClasses.simple DeviceScopes.endpoint
      2) {
        required_server_clusters =
            ClusterType.operational_state ∷ ClusterType.microwave_oven_mode
            ∷ ClusterType.microwave_oven_control ∷ [];
        optional_server_clusters = ClusterType.identify ∷ ClusterType.fan_control ∷ [];
      }
