-- ===== src/Clusters/Places.antt =====
-- The place of a cluster in the list of supported clusters, which tells clusters apart.
use matterbridge.Base.{ℕ, ◌≡◌, refl, Bool, false, ◌||◌, List, [], ◌∷◌, ◌++◌, arith, ◌==◌}
use matterbridge.Clusters.{ClusterType}

unfoldable pub place : ClusterType → ℕ
place ClusterType.account_login = 0
place ClusterType.actions = 1
place ClusterType.activated_carbon_filter_monitoring = 2
place ClusterType.administrator_commissioning = 3
place ClusterType.air_quality = 4
place ClusterType.application_basic = 5
place ClusterType.application_launcher = 6
place ClusterType.audio_output = 7
place ClusterType.binding = 8
place ClusterType.boolean_state = 9
place ClusterType.boolean_state_configuration = 10
place ClusterType.bridged_device_basic_information = 11
place ClusterType.camera_av_settings_user_level_management = 12
place ClusterType.camera_av_stream_management = 13
place ClusterType.carbon_dioxide_concentration_measurement = 14
place ClusterType.carbon_monoxide_concentration_measurement = 15
place ClusterType.channel = 16
place ClusterType.chime = 17
place ClusterType.closure_control = 18
place ClusterType.closure_dimension = 19
place ClusterType.color_control = 20
place ClusterType.commissioner_control = 21
place ClusterType.commodity_metering = 22
place ClusterType.commodity_price = 23
place ClusterType.commodity_tariff = 24
place ClusterType.content_app_observer = 25
place ClusterType.content_control = 26
place ClusterType.content_launcher = 27
place ClusterType.descriptor = 28
place ClusterType.device_energy_management = 29
place ClusterType.device_energy_management_mode = 30
place ClusterType.dishwasher_alarm = 31
place ClusterType.dishwasher_mode = 32
place ClusterType.door_lock = 33
place ClusterType.ecosystem_information = 34
place ClusterType.electrical_energy_measurement = 35
place ClusterType.electrical_grid_conditions = 36
place ClusterType.electrical_power_measurement = 37
place ClusterType.energy_evse = 38
place ClusterType.energy_evse_mode = 39
place ClusterType.energy_preference = 40
place ClusterType.fan_control = 41
place ClusterType.fixed_label = 42
place ClusterType.flow_measurement = 43
place ClusterType.formaldehyde_concentration_measurement = 44
place ClusterType.groups = 45
place ClusterType.hepa_filter_monitoring = 46
place ClusterType.identify = 47
place ClusterType.illuminance_measurement = 48
place ClusterType.keypad_input = 49
place ClusterType.laundry_dryer_controls = 50
place ClusterType.laundry_washer_controls = 51
place ClusterType.laundry_washer_mode = 52
place ClusterType.level_control = 53
place ClusterType.low_power = 54
place ClusterType.media_input = 55
place ClusterType.media_playback = 56
place ClusterType.messages = 57
place ClusterType.meter_identification = 58
place ClusterType.microwave_oven_control = 59
place ClusterType.microwave_oven_mode = 60
place ClusterType.mode_select = 61
place ClusterType.nitrogen_dioxide_concentration_measurement = 62
place ClusterType.occupancy_sensing = 63
place ClusterType.on_off = 64
place ClusterType.operational_state = 65
place ClusterType.ota_software_update_provider = 66
place ClusterType.ota_software_update_requestor = 67
place ClusterType.oven_cavity_operational_state = 68
place ClusterType.oven_mode = 69
place ClusterType.ozone_concentration_measurement = 70
place ClusterType.pm1_concentration_measurement = 71
place ClusterType.pm10_concentration_measurement = 72
place ClusterType.pm25_concentration_measurement = 73
place ClusterType.power_source = 74
place ClusterType.power_topology = 75
place ClusterType.pressure_measurement = 76
place ClusterType.pump_configuration_and_control = 77
place ClusterType.push_av_stream_transport = 78
place ClusterType.radon_concentration_measurement = 79
place ClusterType.refrigerator_alarm = 80
place ClusterType.refrigerator_and_temperature_controlled_cabinet_mode = 81
place ClusterType.relative_humidity_measurement = 82
place ClusterType.rvc_clean_mode = 83
place ClusterType.rvc_operational_state = 84
place ClusterType.rvc_run_mode = 85
place ClusterType.scenes_management = 86
place ClusterType.service_area = 87
place ClusterType.smoke_co_alarm = 88
place ClusterType.soil_measurement = 89
place ClusterType.switch = 90
place ClusterType.target_navigator = 91
place ClusterType.temperature_control = 92
place ClusterType.temperature_measurement = 93
place ClusterType.thermostat = 94
place ClusterType.thermostat_user_interface_configuration = 95
place ClusterType.tls_certificate_management = 96
place ClusterType.tls_client_management = 97
place ClusterType.total_volatile_organic_compounds_concentration_measurement = 98
place ClusterType.user_label = 99
place ClusterType.valve_configuration_and_control = 100
place ClusterType.wake_on_lan = 101
place ClusterType.water_heater_management = 102
place ClusterType.water_heater_mode = 103
place ClusterType.web_rtc_transport_provider = 104
place ClusterType.web_rtc_transport_requestor = 105
place ClusterType.window_covering = 106
place ClusterType.zone_management = 107

-- `===` on ids.
abbrev pub same_cluster : ClusterType → ClusterType → Bool
same_cluster c d = place c == place d

-- `includes` on a list of ids.
abbrev pub has_cluster : List ClusterType → ClusterType → Bool
has_cluster [] c = false
has_cluster (d ∷ clusters) c = same_cluster d c || has_cluster clusters c

pub has_cluster-append :
    (clusters more : List ClusterType) (c : ClusterType)
    → has_cluster (clusters ++ more) c ≡ has_cluster clusters c || has_cluster more c
has_cluster-append [] more c = refl
has_cluster-append (d ∷ clusters) more c = ground (arith, has_cluster-append clusters more c)

-- A list does not tell a cluster from one at its place.
pub has_cluster-same :
    (clusters : List ClusterType) (c d : ClusterType)
    → place c ≡ place d
    → has_cluster clusters c ≡ has_cluster clusters d
has_cluster-same [] c d h = refl
has_cluster-same (e ∷ clusters) c d h = ground (arith, h, has_cluster-same clusters c d h)
