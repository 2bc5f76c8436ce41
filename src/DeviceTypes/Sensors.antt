-- ===== src/DeviceTypes/Sensors.antt =====
-- packages/core/src/matterbridgeDeviceTypes.ts, chapter 7: sensor device types.
use matterbridge.Base.{[], ◌∷◌}
use matterbridge.Clusters.{ClusterType}
use matterbridge.DeviceTypes.{
  DeviceClasses, DeviceScopes, DeviceTypeDefinition, device_type_definition,
}

abbrev pub contact_sensor : DeviceTypeDefinition
contact_sensor =
    record (device_type_definition "ContactSensor" 21 DeviceClasses.simple DeviceScopes.endpoint
      2) {
        required_server_clusters = ClusterType.identify ∷ ClusterType.boolean_state ∷ [];
        optional_server_clusters = ClusterType.boolean_state_configuration ∷ [];
      }

abbrev pub light_sensor : DeviceTypeDefinition
light_sensor =
    record (device_type_definition "LightSensor" 262 DeviceClasses.simple DeviceScopes.endpoint 4) {
      required_server_clusters = ClusterType.identify ∷ ClusterType.illuminance_measurement ∷ [];
    }

abbrev pub occupancy_sensor : DeviceTypeDefinition
occupancy_sensor =
    record (device_type_definition "OccupancySensor" 263 DeviceClasses.simple DeviceScopes.endpoint
      4) {
        required_server_clusters = ClusterType.identify ∷ ClusterType.occupancy_sensing ∷ [];
        optional_server_clusters = ClusterType.boolean_state_configuration ∷ [];
      }

abbrev pub temperature_sensor : DeviceTypeDefinition
temperature_sensor =
    record (device_type_definition "TemperatureSensor" 770 DeviceClasses.simple
      DeviceScopes.endpoint 3) {
        required_server_clusters = ClusterType.identify ∷ ClusterType.temperature_measurement ∷ [];
        optional_server_clusters = ClusterType.thermostat_user_interface_configuration ∷ [];
      }

abbrev pub pressure_sensor : DeviceTypeDefinition
pressure_sensor =
    record (device_type_definition "PressureSensor" 773 DeviceClasses.simple DeviceScopes.endpoint
      3) { required_server_clusters = ClusterType.identify ∷ ClusterType.pressure_measurement ∷ [] }

abbrev pub flow_sensor : DeviceTypeDefinition
flow_sensor =
    record (device_type_definition "FlowSensor" 774 DeviceClasses.simple DeviceScopes.endpoint 3) {
      required_server_clusters = ClusterType.identify ∷ ClusterType.flow_measurement ∷ [];
    }

abbrev pub humidity_sensor : DeviceTypeDefinition
humidity_sensor =
    record (device_type_definition "HumiditySensor" 775 DeviceClasses.simple DeviceScopes.endpoint
      3) {
        required_server_clusters =
            ClusterType.identify ∷ ClusterType.relative_humidity_measurement ∷ [];
      }

abbrev pub on_off_sensor : DeviceTypeDefinition
on_off_sensor =
    record (device_type_definition "OnOffSensor" 2128 DeviceClasses.simple DeviceScopes.endpoint
      3) {
        required_server_clusters = ClusterType.identify ∷ [];
        required_client_clusters = ClusterType.identify ∷ ClusterType.on_off ∷ [];
        optional_client_clusters =
            ClusterType.groups ∷ ClusterType.level_control ∷ ClusterType.color_control
            ∷ ClusterType.scenes_management ∷ [];
      }

abbrev pub smoke_co_alarm : DeviceTypeDefinition
smoke_co_alarm =
    record (device_type_definition "SmokeCOAlarm" 118 DeviceClasses.simple DeviceScopes.endpoint
      1) {
        required_server_clusters = ClusterType.identify ∷ ClusterType.smoke_co_alarm ∷ [];
        optional_server_clusters =
            ClusterType.groups ∷ ClusterType.temperature_measurement
            ∷ ClusterType.relative_humidity_measurement
            ∷ ClusterType.carbon_monoxide_concentration_measurement ∷ [];
        required_device_types = 17 ∷ [];
      }

abbrev pub air_quality_sensor : DeviceTypeDefinition
air_quality_sensor =
    record (device_type_definition "AirQualitySensor" 44 DeviceClasses.simple DeviceScopes.endpoint
      1) {
        required_server_clusters = ClusterType.identify ∷ ClusterType.air_quality ∷ [];
        optional_server_clusters =
            ClusterType.temperature_measurement ∷ ClusterType.relative_humidity_measurement
            ∷ ClusterType.carbon_monoxide_concentration_measurement
            ∷ ClusterType.carbon_dioxide_concentration_measurement
            ∷ ClusterType.nitrogen_dioxide_concentration_measurement
            ∷ ClusterType.ozone_concentration_measurement
            ∷ ClusterType.formaldehyde_concentration_measurement
            ∷ ClusterType.pm1_concentration_measurement ∷ ClusterType.pm25_concentration_measurement
            ∷ ClusterType.pm10_concentration_measurement
            ∷ ClusterType.radon_concentration_measurement
            ∷ ClusterType.total_volatile_organic_compounds_concentration_measurement ∷ [];
      }

abbrev pub water_freeze_detector : DeviceTypeDefinition
water_freeze_detector =
    record (device_type_definition "WaterFreezeDetector" 65 DeviceClasses.simple
      DeviceScopes.endpoint 1) {
        required_server_clusters = ClusterType.identify ∷ ClusterType.boolean_state ∷ [];
        optional_server_clusters = ClusterType.boolean_state_configuration ∷ [];
      }

abbrev pub water_leak_detector : DeviceTypeDefinition
water_leak_detector =
    record (device_type_definition "WaterLeakDetector" 67 DeviceClasses.simple DeviceScopes.endpoint
      1) {
        required_server_clusters = ClusterType.identify ∷ ClusterType.boolean_state ∷ [];
        optional_server_clusters = ClusterType.boolean_state_configuration ∷ [];
      }

abbrev pub rain_sensor : DeviceTypeDefinition
rain_sensor =
    record (device_type_definition "RainSensor" 68 DeviceClasses.simple DeviceScopes.endpoint 1) {
      required_server_clusters = ClusterType.identify ∷ ClusterType.boolean_state ∷ [];
      optional_server_clusters = ClusterType.boolean_state_configuration ∷ [];
    }

abbrev pub soil_sensor : DeviceTypeDefinition
soil_sensor =
    record (device_type_definition "SoilSensor" 69 DeviceClasses.simple DeviceScopes.endpoint 1) {
      required_server_clusters = ClusterType.identify ∷ ClusterType.soil_measurement ∷ [];
      optional_server_clusters = ClusterType.temperature_measurement ∷ [];
    }
