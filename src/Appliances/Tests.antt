-- ===== src/Appliances/Tests.antt =====
-- The servers of the appliance clusters on concrete attributes, and their theorems there. The device's
-- own code accepts every command and leaves the attributes.
use matterbridge.Base.{
  ℕ, refl, subst, true, false, none, some, List, [], ◌∷◌, arith, ok, ok-injective,
}
use matterbridge.Appliances.{CommandHandler, Keeps}
use matterbridge.Appliances.Microwave.{
  normal, ModeOption, Oven, OvenCommand, set_parameters, add_time, run_oven, normal_mode,
  has_normal_tag, run_oven-IsValid,
}
use matterbridge.Appliances.Microwave as Microwave
use matterbridge.Appliances.Evse.{
  Evse, EvseCommand, EnableChargingRequest, plugged_in_charging, charging_enabled, disable,
  change_to_mode, is_supported, run_evse, IsSafe, run_evse-IsSafe,
}
use matterbridge.Appliances.Valve.{
  Valve, ValveCommand, valve_closed, not_given, open_valve, close_valve, IsSteady,
}

abbrev accepting : {S R : Type 0} → CommandHandler ℕ S R
accepting s r = ok s

accepting-Keeps : {S R : Type 0} (P : S → Type 0) → Keeps {E = ℕ} {S = S} {R = R} P accepting
accepting-Keeps P s r s' p h = subst P (ok-injective h) p

abbrev oven : Oven
oven = record {
  cook_time = 60;
  max_cook_time = 3600;
  selected_watt_index = some 5;
  supported_watts = 100 ∷ 200 ∷ 300 ∷ 400 ∷ 500 ∷ 600 ∷ [];
  supported_modes = record { mode = 6; mode_tags = normal ∷ [] } ∷ [];
  current_mode = some 6;
  is_running = false;
}

oven-IsValid : Microwave.IsValid oven
unfolding normal_mode has_normal_tag
oven-IsValid = record {
  within = omega arith;
  default_fits = omega arith;
  index_in_range = (5, refl, omega arith);
  mode_set = (6, refl);
  has_normal = (6, refl);
}

abbrev oven_commands : List OvenCommand
oven_commands =
    set_parameters (record {
      cook_mode = none;
      request_time = some 5000;
      watt_setting_index = some 9;
      start_after_setting = some true;
    })
    ∷ add_time (some 100)
    ∷ []

run_oven-IsValid_example : Microwave.IsValid (run_oven accepting oven oven_commands)
run_oven-IsValid_example =
    run_oven-IsValid accepting (accepting-Keeps Microwave.IsValid) oven oven_commands oven-IsValid

abbrev evse : Evse
evse = record {
  supply_state = charging_enabled;
  state = plugged_in_charging;
  charging_enabled_until = none;
  minimum_charge_current = 6000;
  maximum_charge_current = 16000;
  supported_modes = 1 ∷ 2 ∷ 3 ∷ [];
  current_mode = 1;
}

evse-IsSafe : IsSafe evse
unfolding is_supported
evse-IsSafe = record { not_charging = refl; mode_supported = refl }

abbrev evse_commands : List EvseCommand
evse_commands = disable ∷ change_to_mode 7 ∷ change_to_mode 3 ∷ []

run_evse-IsSafe_example : IsSafe (run_evse accepting evse evse_commands)
run_evse-IsSafe_example =
    run_evse-IsSafe accepting (accepting-Keeps IsSafe) evse evse_commands evse-IsSafe

abbrev limits : EnableChargingRequest
limits = record { until = some 3600; minimum_current = 6000; maximum_current = 32000 }

abbrev valve : Valve
valve = record {
  target_state = valve_closed;
  current_state = valve_closed;
  target_level = 0;
  current_level = 0;
  duration = none;
  remaining_duration = none;
  default_duration = some 600;
}

valve-IsSteady : IsSteady valve
valve-IsSteady = record {
  states_agree = refl;
  levels_agree = refl;
  closed_level = (refl, refl);
  no_remaining = refl;
}

abbrev valve_commands : List ValveCommand
valve_commands =
    open_valve (record { open_duration = not_given; target_level = some 40 }) ∷ close_valve ∷ []
