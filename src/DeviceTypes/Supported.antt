-- ===== src/DeviceTypes/Supported.antt =====
-- packages/core/src/matterbridgeDeviceTypes.ts: the list of supported device types, the further
-- names of some of them, and the search by number or name.
use matterbridge.Base.{Option, List, [], ◌∷◌}
use matterbridge.DeviceTypes.{DeviceTypeDefinition}
use matterbridge.DeviceTypes.Search.{Key, find}
use matterbridge.DeviceTypes.Basic.{
  base_device_type, root_node, power_source, ota_requestor, ota_provider, bridged_node,
  electrical_sensor, device_energy_management,
}
use matterbridge.DeviceTypes.Lighting.{
  on_off_light, dimmable_light, color_temperature_light, extended_color_light,
}
use matterbridge.DeviceTypes.Outlets.{
  on_off_plug_in_unit, dimmable_plug_in_unit, mounted_on_off_control, mounted_dimmable_load_control,
  pump, water_valve, irrigation_system,
}
use matterbridge.DeviceTypes.Switches.{
  on_off_light_switch, dimmer_switch, color_dimmer_switch, control_bridge, pump_controller,
  generic_switch,
}
use matterbridge.DeviceTypes.Sensors.{
  contact_sensor, light_sensor, occupancy_sensor, temperature_sensor, pressure_sensor, flow_sensor,
  humidity_sensor, on_off_sensor, smoke_co_alarm, air_quality_sensor, water_freeze_detector,
  water_leak_detector, rain_sensor, soil_sensor,
}
use matterbridge.DeviceTypes.Entry.{
  door_lock, door_lock_controller, window_covering, window_covering_controller, closure,
  closure_panel, closure_controller,
}
use matterbridge.DeviceTypes.Climate.{thermostat, fan, air_purifier, thermostat_controller}
use matterbridge.DeviceTypes.Media.{
  basic_video_player, casting_video_player, speaker, content_app, casting_video_client,
  video_remote_control,
}
use matterbridge.DeviceTypes.Generic.{mode_select, aggregator, robotic_vacuum_cleaner}
use matterbridge.DeviceTypes.Household.{
  laundry_washer, refrigerator, room_air_conditioner, temperature_controlled_cabinet_cooler,
  temperature_controlled_cabinet_heater, dishwasher, laundry_dryer, cook_surface, cooktop, oven,
  extractor_hood, microwave_oven,
}
use matterbridge.DeviceTypes.Energy.{
  evse, water_heater, solar_power, battery_storage, heat_pump, meter_reference_point,
  electrical_energy_tariff, electrical_meter, electrical_utility_meter,
}
use matterbridge.DeviceTypes.Cameras.{
  camera, floodlight_camera, video_doorbell, intercom, audio_doorbell, snapshot_camera, chime,
  camera_controller, doorbell,
}

abbrev pub supported_device_types : List DeviceTypeDefinition
supported_device_types =
    base_device_type ∷ root_node ∷ power_source ∷ ota_requestor ∷ ota_provider ∷ bridged_node
    ∷ electrical_sensor ∷ device_energy_management ∷ on_off_light ∷ dimmable_light
    ∷ color_temperature_light ∷ extended_color_light ∷ on_off_plug_in_unit ∷ dimmable_plug_in_unit
    ∷ mounted_on_off_control ∷ mounted_dimmable_load_control ∷ pump ∷ water_valve
    ∷ irrigation_system ∷ on_off_light_switch ∷ dimmer_switch ∷ color_dimmer_switch ∷ control_bridge
    ∷ pump_controller ∷ generic_switch ∷ contact_sensor ∷ light_sensor ∷ occupancy_sensor
    ∷ temperature_sensor ∷ pressure_sensor ∷ flow_sensor ∷ humidity_sensor ∷ on_off_sensor
    ∷ smoke_co_alarm ∷ air_quality_sensor ∷ water_freeze_detector ∷ water_leak_detector
    ∷ rain_sensor ∷ soil_sensor ∷ door_lock ∷ door_lock_controller ∷ window_covering
    ∷ window_covering_controller ∷ closure ∷ closure_panel ∷ closure_controller ∷ thermostat ∷ fan
    ∷ air_purifier ∷ thermostat_controller ∷ basic_video_player ∷ casting_video_player ∷ speaker
    ∷ content_app ∷ casting_video_client ∷ video_remote_control ∷ mode_select ∷ aggregator
    ∷ robotic_vacuum_cleaner ∷ laundry_washer ∷ refrigerator ∷ room_air_conditioner
    ∷ temperature_controlled_cabinet_cooler ∷ temperature_controlled_cabinet_heater ∷ dishwasher
    ∷ laundry_dryer ∷ cook_surface ∷ cooktop ∷ oven ∷ extractor_hood ∷ microwave_oven ∷ evse
    ∷ water_heater ∷ solar_power ∷ battery_storage ∷ heat_pump ∷ meter_reference_point
    ∷ electrical_energy_tariff ∷ electrical_meter ∷ electrical_utility_meter ∷ camera
    ∷ floodlight_camera ∷ video_doorbell ∷ intercom ∷ audio_doorbell ∷ snapshot_camera ∷ chime
    ∷ camera_controller ∷ doorbell ∷ []

abbrev pub on_off_outlet : DeviceTypeDefinition
on_off_outlet = on_off_plug_in_unit

abbrev pub dimmable_outlet : DeviceTypeDefinition
dimmable_outlet = dimmable_plug_in_unit

abbrev pub on_off_mounted_switch : DeviceTypeDefinition
on_off_mounted_switch = mounted_on_off_control

abbrev pub dimmable_mounted_switch : DeviceTypeDefinition
dimmable_mounted_switch = mounted_dimmable_load_control

abbrev pub pump_device : DeviceTypeDefinition
pump_device = pump

abbrev pub on_off_switch : DeviceTypeDefinition
on_off_switch = on_off_light_switch

abbrev pub dimmable_switch : DeviceTypeDefinition
dimmable_switch = dimmer_switch

abbrev pub color_temperature_switch : DeviceTypeDefinition
color_temperature_switch = color_dimmer_switch

abbrev pub door_lock_device : DeviceTypeDefinition
door_lock_device = door_lock

abbrev pub cover_device : DeviceTypeDefinition
cover_device = window_covering

abbrev pub thermostat_device : DeviceTypeDefinition
thermostat_device = thermostat

abbrev pub fan_device : DeviceTypeDefinition
fan_device = fan

abbrev pub speaker_device : DeviceTypeDefinition
speaker_device = speaker

abbrev pub bridge : DeviceTypeDefinition
bridge = aggregator

abbrev pub air_conditioner : DeviceTypeDefinition
air_conditioner = room_air_conditioner

unfoldable pub get_supported_device_type : Key → Option DeviceTypeDefinition
unfolding find
get_supported_device_type key = find key supported_device_types
