-- ===== src/Clusters.antt =====
-- The clusters of matter.js that packages/core/src/matterbridgeDeviceTypes.ts names, and the list of
-- them that it supports. matter.js gives each cluster a number of its own, its id, so a list of ids is a
-- list of clusters here, and comparing ids is comparing the places of the clusters in this list.
pub mod Places
use matterbridge.Base.{List, [], ◌∷◌}

pub data ClusterType : Type 0 where
  account_login actions activated_carbon_filter_monitoring : ClusterType
  administrator_commissioning air_quality application_basic application_launcher : ClusterType
  audio_output binding boolean_state boolean_state_configuration : ClusterType
  bridged_device_basic_information camera_av_settings_user_level_management : ClusterType
  camera_av_stream_management carbon_dioxide_concentration_measurement : ClusterType
  carbon_monoxide_concentration_measurement channel chime closure_control : ClusterType
  closure_dimension color_control commissioner_control commodity_metering : ClusterType
  commodity_price commodity_tariff content_app_observer content_control : ClusterType
  content_launcher descriptor device_energy_management device_energy_management_mode : ClusterType
  dishwasher_alarm dishwasher_mode door_lock ecosystem_information : ClusterType
  electrical_energy_measurement electrical_grid_conditions : ClusterType
  electrical_power_measurement energy_evse energy_evse_mode energy_preference : ClusterType
  fan_control fixed_label flow_measurement formaldehyde_concentration_measurement : ClusterType
  groups hepa_filter_monitoring identify illuminance_measurement keypad_input : ClusterType
  laundry_dryer_controls laundry_washer_controls laundry_washer_mode level_control : ClusterType
  low_power media_input media_playback messages meter_identification : ClusterType
  microwave_oven_control microwave_oven_mode mode_select : ClusterType
  nitrogen_dioxide_concentration_measurement occupancy_sensing on_off : ClusterType
  operational_state ota_software_update_provider ota_software_update_requestor : ClusterType
  oven_cavity_operational_state oven_mode ozone_concentration_measurement : ClusterType
  pm1_concentration_measurement pm10_concentration_measurement : ClusterType
  pm25_concentration_measurement power_source power_topology pressure_measurement : ClusterType
  pump_configuration_and_control push_av_stream_transport : ClusterType
  radon_concentration_measurement refrigerator_alarm : ClusterType
  refrigerator_and_temperature_controlled_cabinet_mode relative_humidity_measurement : ClusterType
  rvc_clean_mode rvc_operational_state rvc_run_mode scenes_management service_area : ClusterType
  smoke_co_alarm soil_measurement switch target_navigator temperature_control : ClusterType
  temperature_measurement thermostat thermostat_user_interface_configuration : ClusterType
  tls_certificate_management tls_client_management : ClusterType
  total_volatile_organic_compounds_concentration_measurement user_label : ClusterType
  valve_configuration_and_control wake_on_lan water_heater_management : ClusterType
  water_heater_mode web_rtc_transport_provider web_rtc_transport_requestor : ClusterType
  window_covering zone_management : ClusterType

abbrev pub supported_clusters : List ClusterType
supported_clusters =
    ClusterType.account_login ∷ ClusterType.actions ∷ ClusterType.activated_carbon_filter_monitoring
    ∷ ClusterType.administrator_commissioning ∷ ClusterType.air_quality
    ∷ ClusterType.application_basic ∷ ClusterType.application_launcher ∷ ClusterType.audio_output
    ∷ ClusterType.binding ∷ ClusterType.boolean_state ∷ ClusterType.boolean_state_configuration
    ∷ ClusterType.bridged_device_basic_information
    ∷ ClusterType.camera_av_settings_user_level_management ∷ ClusterType.camera_av_stream_management
    ∷ ClusterType.carbon_dioxide_concentration_measurement
    ∷ ClusterType.carbon_monoxide_concentration_measurement ∷ ClusterType.channel
    ∷ ClusterType.chime ∷ ClusterType.closure_control ∷ ClusterType.closure_dimension
    ∷ ClusterType.color_control ∷ ClusterType.commissioner_control ∷ ClusterType.commodity_metering
    ∷ ClusterType.commodity_price ∷ ClusterType.commodity_tariff ∷ ClusterType.content_app_observer
    ∷ ClusterType.content_control ∷ ClusterType.content_launcher ∷ ClusterType.descriptor
    ∷ ClusterType.device_energy_management ∷ ClusterType.device_energy_management_mode
    ∷ ClusterType.dishwasher_alarm ∷ ClusterType.dishwasher_mode ∷ ClusterType.door_lock
    ∷ ClusterType.ecosystem_information ∷ ClusterType.electrical_energy_measurement
    ∷ ClusterType.electrical_grid_conditions ∷ ClusterType.electrical_power_measurement
    ∷ ClusterType.energy_evse ∷ ClusterType.energy_evse_mode ∷ ClusterType.energy_preference
    ∷ ClusterType.fan_control ∷ ClusterType.fixed_label ∷ ClusterType.flow_measurement
    ∷ ClusterType.formaldehyde_concentration_measurement ∷ ClusterType.groups
    ∷ ClusterType.hepa_filter_monitoring ∷ ClusterType.identify
    ∷ ClusterType.illuminance_measurement ∷ ClusterType.keypad_input
    ∷ ClusterType.laundry_dryer_controls ∷ ClusterType.laundry_washer_controls
    ∷ ClusterType.laundry_washer_mode ∷ ClusterType.level_control ∷ ClusterType.low_power
    ∷ ClusterType.media_input ∷ ClusterType.media_playback ∷ ClusterType.messages
    ∷ ClusterType.meter_identification ∷ ClusterType.microwave_oven_control
    ∷ ClusterType.microwave_oven_mode ∷ ClusterType.mode_select
    ∷ ClusterType.nitrogen_dioxide_concentration_measurement ∷ ClusterType.occupancy_sensing
    ∷ ClusterType.on_off ∷ ClusterType.operational_state ∷ ClusterType.ota_software_update_provider
    ∷ ClusterType.ota_software_update_requestor ∷ ClusterType.oven_cavity_operational_state
    ∷ ClusterType.oven_mode ∷ ClusterType.ozone_concentration_measurement
    ∷ ClusterType.pm1_concentration_measurement ∷ ClusterType.pm10_concentration_measurement
    ∷ ClusterType.pm25_concentration_measurement ∷ ClusterType.power_source
    ∷ ClusterType.power_topology ∷ ClusterType.pressure_measurement
    ∷ ClusterType.pump_configuration_and_control ∷ ClusterType.push_av_stream_transport
    ∷ ClusterType.radon_concentration_measurement ∷ ClusterType.refrigerator_alarm
    ∷ ClusterType.refrigerator_and_temperature_controlled_cabinet_mode
    ∷ ClusterType.relative_humidity_measurement ∷ ClusterType.rvc_clean_mode
    ∷ ClusterType.rvc_operational_state ∷ ClusterType.rvc_run_mode ∷ ClusterType.scenes_management
    ∷ ClusterType.service_area ∷ ClusterType.smoke_co_alarm ∷ ClusterType.soil_measurement
    ∷ ClusterType.switch ∷ ClusterType.target_navigator ∷ ClusterType.temperature_control
    ∷ ClusterType.temperature_measurement ∷ ClusterType.thermostat
    ∷ ClusterType.thermostat_user_interface_configuration ∷ ClusterType.tls_certificate_management
    ∷ ClusterType.tls_client_management
    ∷ ClusterType.total_volatile_organic_compounds_concentration_measurement
    ∷ ClusterType.user_label ∷ ClusterType.valve_configuration_and_control ∷ ClusterType.wake_on_lan
    ∷ ClusterType.water_heater_management ∷ ClusterType.water_heater_mode
    ∷ ClusterType.web_rtc_transport_provider ∷ ClusterType.web_rtc_transport_requestor
    ∷ ClusterType.window_covering ∷ ClusterType.zone_management ∷ []
