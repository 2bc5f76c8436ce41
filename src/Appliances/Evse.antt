-- ===== src/Appliances/Evse.antt =====
-- devices/evse.ts: MatterbridgeEnergyEvseServer and MatterbridgeEnergyEvseModeServer.
use matterbridge.Base.{
  ℕ, ◌≡◌, refl, sym, ap, subst, inl, inr, Bool, true, false, ◌||◌, Option, List, [], ◌∷◌, ◌==◌,
  if◌then◌else◌, Bool-cases, Result, ok, ◌>>=◌, Result-cases, >>=-eq-ok, ok-injective,
}
use matterbridge.Appliances.{CommandHandler, Keeps, attributes_after}

-- EnergyEvse.State and EnergyEvse.SupplyState, as far as the code names them.
pub data EvseState : Type 0 where
  plugged_in_demand plugged_in_charging : EvseState
  other_state : ℕ → EvseState

pub data SupplyState : Type 0 where
  disabled charging_enabled : SupplyState
  other_supply : ℕ → SupplyState

pub record EnableChargingRequest : Type 0 where
  pub until : Option ℕ
  pub minimum_current : ℕ
  pub maximum_current : ℕ

pub record Evse : Type 0 where
  pub supply_state : SupplyState
  pub state : EvseState
  pub charging_enabled_until : Option ℕ
  pub minimum_charge_current : ℕ
  pub maximum_charge_current : ℕ
  pub supported_modes : List ℕ
  pub current_mode : ℕ

pub data EvseCommand : Type 0 where
  disable set_targets get_targets clear_targets : EvseCommand
  enable_charging : EnableChargingRequest → EvseCommand
  change_to_mode : (new_mode : ℕ) → EvseCommand

pub data ModeChangeStatus : Type 0 where
  success unsupported_mode : ModeChangeStatus

unfoldable pub state_disabled : EvseState → EvseState
state_disabled plugged_in_charging = plugged_in_demand
state_disabled plugged_in_demand = plugged_in_demand
state_disabled (other_state n) = other_state n

unfoldable pub state_enabled : EvseState → EvseState
state_enabled plugged_in_demand = plugged_in_charging
state_enabled plugged_in_charging = plugged_in_charging
state_enabled (other_state n) = other_state n

unfoldable pub is_supported : ℕ → List ℕ → Bool
is_supported mode [] = false
is_supported mode (m ∷ ms) = m == mode || is_supported mode ms

unfoldable pub disabled_evse : Evse → Evse
unfolding state_disabled
disabled_evse s = record s { supply_state = disabled; state = state_disabled s.state }

unfoldable pub enabled_evse : Evse → EnableChargingRequest → Evse
unfolding state_enabled
enabled_evse s r = record s {
  supply_state = charging_enabled;
  state = state_enabled s.state;
  charging_enabled_until = r.until;
  minimum_charge_current = r.minimum_current;
  maximum_charge_current = r.maximum_current;
}

unfoldable pub changed_mode : Evse → ℕ → Evse × ModeChangeStatus
unfolding is_supported
changed_mode s new_mode =
    if is_supported new_mode s.supported_modes
    then (record s { current_mode = new_mode }, success)
    else (s, unsupported_mode)

-- setTargets, getTargets and clearTargets only log.
unfoldable pub evse_command :
    {E : Type 0} → CommandHandler E Evse EvseCommand → Evse → EvseCommand → Result E Evse
unfolding disabled_evse enabled_evse changed_mode
evse_command handler s disable = do handled ← handler s disable; ok (disabled_evse handled)
evse_command handler s (enable_charging r) = do
  handled ← handler s (enable_charging r)
  ok (enabled_evse handled r)
evse_command handler s (change_to_mode new_mode) = do
  handled ← handler s (change_to_mode new_mode)
  ok (changed_mode handled new_mode).0
evse_command handler s set_targets = ok s
evse_command handler s get_targets = ok s
evse_command handler s clear_targets = ok s

abbrev pub run_evse :
    {E : Type 0} → CommandHandler E Evse EvseCommand → Evse → List EvseCommand → Evse
run_evse handler s [] = s
run_evse handler s (c ∷ cs) = run_evse handler (attributes_after s (evse_command handler s c)) cs

abbrev may_be : SupplyState → EvseState → Bool
may_be disabled plugged_in_charging = false
may_be disabled plugged_in_demand = true
may_be disabled (other_state n) = true
may_be charging_enabled state = true
may_be (other_supply n) state = true

-- A disabled supply does not charge, and the mode is one of the supported modes.
pub record IsSafe (s : Evse) : Type 0 where
  pub not_charging : may_be s.supply_state s.state ≡ true
  pub mode_supported : is_supported s.current_mode s.supported_modes ≡ true

state_disabled_lem : (s : EvseState) → may_be disabled (state_disabled s) ≡ true
unfolding state_disabled
state_disabled_lem plugged_in_charging = refl
state_disabled_lem plugged_in_demand = refl
state_disabled_lem (other_state n) = refl

state_round_trip : (s : EvseState) → s ≡ plugged_in_charging → state_enabled (state_disabled s) ≡ s
unfolding state_disabled state_enabled
state_round_trip plugged_in_charging h = refl
state_round_trip plugged_in_demand h = sym h
state_round_trip (other_state n) h = cc

changed_mode-IsSafe : (s : Evse) (m : ℕ) → IsSafe s → IsSafe (changed_mode s m).0
unfolding changed_mode
changed_mode-IsSafe s m v = elim (Bool-cases (is_supported m s.supported_modes)) [
  | inl e ↦ rw e (record { not_charging = v.not_charging; mode_supported = e })
  | inr e ↦ rw e v
]

module _ {E : Type 0} (handler : CommandHandler E Evse EvseCommand) where
  module _ (keeps : Keeps IsSafe handler) where
    evse_command-IsSafe :
        (s : Evse) (c : EvseCommand) {s' : Evse}
        → IsSafe s
        → evse_command handler s c ≡ ok s'
        → IsSafe s'
    unfolding evse_command disabled_evse enabled_evse
    evse_command-IsSafe s disable v h =
        let (t, e, k) = >>=-eq-ok (handler s disable) _ h in
        let w = keeps s disable t v e in
        subst IsSafe (ok-injective k)
          (record { not_charging = state_disabled_lem t.state; mode_supported = w.mode_supported })
    evse_command-IsSafe s (enable_charging r) v h =
        let (t, e, k) = >>=-eq-ok (handler s (enable_charging r)) _ h in
        let w = keeps s (enable_charging r) t v e in
        subst IsSafe (ok-injective k)
          (record { not_charging = refl; mode_supported = w.mode_supported })
    evse_command-IsSafe s (change_to_mode m) v h =
        let (t, e, k) = >>=-eq-ok (handler s (change_to_mode m)) _ h in
        subst IsSafe (ok-injective k) (changed_mode-IsSafe t m (keeps s (change_to_mode m) t v e))
    evse_command-IsSafe s set_targets v h = subst IsSafe (ok-injective h) v
    evse_command-IsSafe s get_targets v h = subst IsSafe (ok-injective h) v
    evse_command-IsSafe s clear_targets v h = subst IsSafe (ok-injective h) v

    -- If the device's own code keeps the charger safe, then so does any sequence of commands,
    -- whether or not a handler throws: with the supply disabled it never charges, and its mode
    -- stays one of the supported modes.
    pub run_evse-IsSafe :
        (s : Evse) (cs : List EvseCommand) → IsSafe s → IsSafe (run_evse handler s cs)
    run_evse-IsSafe s [] v = v
    run_evse-IsSafe s (c ∷ cs) v = elim (Result-cases (evse_command handler s c)) [
      | inl (t, e) ↦ rw e (run_evse-IsSafe t cs (evse_command-IsSafe s c v e))
      | inr (x, e) ↦ rw e (run_evse-IsSafe s cs v)
    ]

  -- If the device's own code leaves the attributes and accepts both commands, then disabling a
  -- charging charger and enabling it again changes nothing but the supply state, which is enabled,
  -- and the time and the limits, which are those of the request: it charges again.
  pub enable_charging-disable :
      ((s : Evse) (c : EvseCommand) → handler s c ≡ ok s)
      → (s : Evse) (r : EnableChargingRequest) → s.state ≡ plugged_in_charging
      → run_evse handler s (disable ∷ enable_charging r ∷ []) ≡ record s {
        supply_state = charging_enabled;
        charging_enabled_until = r.until;
        minimum_charge_current = r.minimum_current;
        maximum_charge_current = r.maximum_current;
      }
  unfolding evse_command disabled_evse enabled_evse
  enable_charging-disable accepts s r h =
      rw (accepts s disable, accepts (disabled_evse s) (enable_charging r))
        (ap
          (λ x. record s {
            supply_state = charging_enabled;
            state = x;
            charging_enabled_until = r.until;
            minimum_charge_current = r.minimum_current;
            maximum_charge_current = r.maximum_current;
          })
          (state_round_trip s.state h))
