-- ===== src/DeviceTypes/Energy.antt =====
-- packages/core/src/matterbridgeDeviceTypes.ts, chapter 14: energy device types.
use matterbridge.Base.{[], ◌∷◌}
use matterbridge.Clusters.{ClusterType}
use matterbridge.DeviceTypes.{
  DeviceClasses, DeviceScopes, DeviceTypeDefinition, device_type_definition,
}

abbrev pub evse : DeviceTypeDefinition
evse =
    record (device_type_definition "EnergyEVSE" 1292 DeviceClasses.simple DeviceScopes.endpoint 2) {
      required_server_clusters = ClusterType.energy_evse ∷ ClusterType.energy_evse_mode ∷ [];
      optional_server_clusters = ClusterType.identify ∷ ClusterType.temperature_measurement ∷ [];
    }

abbrev pub water_heater : DeviceTypeDefinition
water_heater =
    record (device_type_definition "WaterHeater" 1295 DeviceClasses.simple DeviceScopes.endpoint
      1) {
        required_server_clusters =
            ClusterType.thermostat ∷ ClusterType.water_heater_management
            ∷ ClusterType.water_heater_mode ∷ [];
        optional_server_clusters = ClusterType.identify ∷ [];
      }

abbrev pub solar_power : DeviceTypeDefinition
solar_power =
    record (device_type_definition "SolarPower" 23 DeviceClasses.simple DeviceScopes.endpoint 1) {
      optional_server_clusters = ClusterType.identify ∷ [];
    }

abbrev pub battery_storage : DeviceTypeDefinition
battery_storage =
    record (device_type_definition "BatteryStorage" 24 DeviceClasses.simple DeviceScopes.endpoint
      2) { optional_server_clusters = ClusterType.identify ∷ [] }

abbrev pub heat_pump : DeviceTypeDefinition
heat_pump =
    record (device_type_definition "HeatPump" 777 DeviceClasses.simple DeviceScopes.endpoint 1) {
      optional_server_clusters = ClusterType.identify ∷ [];
      optional_client_clusters = ClusterType.thermostat ∷ [];
    }

abbrev pub meter_reference_point : DeviceTypeDefinition
meter_reference_point =
    record (device_type_definition "MeterReferencePoint" 1298 DeviceClasses.simple
      DeviceScopes.endpoint 1) { required_server_clusters = ClusterType.identify ∷ [] }

abbrev pub electrical_energy_tariff : DeviceTypeDefinition
electrical_energy_tariff =
    record (device_type_definition "ElectricalEnergyTariff" 1299 DeviceClasses.simple
      DeviceScopes.endpoint 1) {
        optional_server_clusters =
            ClusterType.commodity_price ∷ ClusterType.electrical_grid_conditions
            ∷ ClusterType.commodity_tariff ∷ [];
      }

abbrev pub electrical_meter : DeviceTypeDefinition
electrical_meter =
    record (device_type_definition "ElectricalMeter" 1300 DeviceClasses.simple DeviceScopes.endpoint
      1) {
        required_server_clusters =
            ClusterType.electrical_power_measurement ∷ ClusterType.electrical_energy_measurement
            ∷ [];
        optional_server_clusters = ClusterType.commodity_metering ∷ [];
      }

abbrev pub electrical_utility_meter : DeviceTypeDefinition
electrical_utility_meter =
    record (device_type_definition "ElectricalUtilityMeter" 1297 DeviceClasses.simple
      DeviceScopes.endpoint 1) { required_server_clusters = ClusterType.meter_identification ∷ [] }
