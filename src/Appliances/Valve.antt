-- ===== src/Appliances/Valve.antt =====
-- behaviors/valveConfigurationAndControlServer.ts: MatterbridgeValveConfigurationAndControlServer.
-- A null duration is `none`; an undefined field of a request is `none`.
use matterbridge.Base.{
  ℕ, ◌≡◌, refl, subst, inl, inr, Option, none, some, List, [], ◌∷◌, Result, ok, ◌>>=◌, Result-cases,
  >>=-eq-ok, ok-injective,
}
use matterbridge.Appliances.{CommandHandler, attributes_after}

pub data ValveState : Type 0 where
  valve_closed valve_open transitioning : ValveState

-- The duration of a request: undefined, null or seconds.
pub data OpenDuration : Type 0 where
  not_given no_limit : OpenDuration
  seconds : ℕ → OpenDuration

pub record OpenRequest : Type 0 where
  pub open_duration : OpenDuration
  pub target_level : Option ℕ

pub record Valve : Type 0 where
  pub target_state : ValveState
  pub current_state : ValveState
  pub target_level : ℕ
  pub current_level : ℕ
  pub duration : Option ℕ
  pub remaining_duration : Option ℕ
  pub default_duration : Option ℕ

pub data ValveCommand : Type 0 where
  open_valve : OpenRequest → ValveCommand
  close_valve : ValveCommand

-- `request.targetLevel ?? 100`.
unfoldable pub level_of : Option ℕ → ℕ
level_of none = 100
level_of (some level) = level

-- `request.openDuration ?? this.state.defaultOpenDuration`: null too gives the default.
unfoldable pub duration_of : OpenDuration → Option ℕ → Option ℕ
duration_of not_given default = default
duration_of no_limit default = default
duration_of (seconds n) default = some n

-- The remaining duration is cleared if the open duration is null.
unfoldable pub remaining_of : Option ℕ → Option ℕ → Option ℕ
remaining_of none remaining = none
remaining_of (some n) remaining = remaining

unfoldable pub opened : Valve → OpenRequest → Valve
unfolding level_of duration_of remaining_of
opened s r = record s {
  target_state = valve_open;
  current_state = valve_open;
  target_level = level_of r.target_level;
  current_level = level_of r.target_level;
  duration = duration_of r.open_duration s.default_duration;
  remaining_duration =
      remaining_of (duration_of r.open_duration s.default_duration) s.remaining_duration;
}

unfoldable pub shut : Valve → Valve
shut s = record s {
  target_state = valve_closed;
  current_state = valve_closed;
  target_level = 0;
  current_level = 0;
  duration = none;
  remaining_duration = none;
}

unfoldable pub valve_command :
    {E : Type 0} → CommandHandler E Valve ValveCommand → Valve → ValveCommand → Result E Valve
valve_command handler s (open_valve r) = do
  handled ← handler s (open_valve r)
  ok (opened handled r)
valve_command handler s close_valve = do handled ← handler s close_valve; ok (shut handled)

abbrev pub run_valve :
    {E : Type 0} → CommandHandler E Valve ValveCommand → Valve → List ValveCommand → Valve
run_valve handler s [] = s
run_valve handler s (c ∷ cs) = run_valve handler (attributes_after s (valve_command handler s c)) cs

-- What a closed valve's level and duration are; those of another are free.
abbrev pub LevelFits : ValveState → ℕ → Option ℕ → Type 0
LevelFits valve_closed level duration = (level ≡ 0) × (duration ≡ none)
LevelFits valve_open level duration = Unit
LevelFits transitioning level duration = Unit

abbrev pub RemainingFits : Option ℕ → Option ℕ → Type 0
RemainingFits none remaining = remaining ≡ none
RemainingFits (some n) remaining = Unit

pub record IsSteady (s : Valve) : Type 0 where
  pub states_agree : s.target_state ≡ s.current_state
  pub levels_agree : s.target_level ≡ s.current_level
  pub closed_level : LevelFits s.current_state s.current_level s.duration
  pub no_remaining : RemainingFits s.duration s.remaining_duration

remaining_of_lem : (d r : Option ℕ) → RemainingFits d (remaining_of d r)
unfolding remaining_of
remaining_of_lem none r = refl
remaining_of_lem (some n) r = tt

valve_command-IsSteady :
    {E : Type 0} (handler : CommandHandler E Valve ValveCommand) (s : Valve) (c : ValveCommand)
    {s' : Valve}
    → valve_command handler s c ≡ ok s'
    → IsSteady s'
unfolding valve_command opened shut
valve_command-IsSteady handler s (open_valve r) h =
    let (t, e, k) = >>=-eq-ok (handler s (open_valve r)) _ h in
    subst IsSteady (ok-injective k) (record {
      states_agree = refl;
      levels_agree = refl;
      closed_level = tt;
      no_remaining =
          remaining_of_lem (duration_of r.open_duration t.default_duration) t.remaining_duration;
    })
valve_command-IsSteady handler s close_valve h =
    let (t, e, k) = >>=-eq-ok (handler s close_valve) _ h in
    subst IsSteady (ok-injective k) (record {
      states_agree = refl;
      levels_agree = refl;
      closed_level = (refl, refl);
      no_remaining = refl;
    })

-- Whatever the device's own code does, any sequence of commands keeps the valve steady, whether or
-- not a handler throws: its target and current state agree, and so do the levels; closed, it has
-- the level 0 and no open duration; and without an open duration it has no remaining duration.
pub run_valve-IsSteady :
    {E : Type 0} (handler : CommandHandler E Valve ValveCommand) (s : Valve)
    (cs : List ValveCommand)
    → IsSteady s
    → IsSteady (run_valve handler s cs)
run_valve-IsSteady handler s [] v = v
run_valve-IsSteady handler s (c ∷ cs) v = elim (Result-cases (valve_command handler s c)) [
  | inl (t, e) ↦ rw e (run_valve-IsSteady handler t cs (valve_command-IsSteady handler s c e))
  | inr (x, e) ↦ rw e (run_valve-IsSteady handler s cs v)
]
