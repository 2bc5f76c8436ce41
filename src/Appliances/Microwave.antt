-- ===== src/Appliances/Microwave.antt =====
-- devices/microwaveOven.ts: MatterbridgeMicrowaveOvenControlServer. Modes, times and indexes are
-- unsigned in the cluster, so that the tests for `>= 0` hold.
use matterbridge.Base.{
  ℕ, ◌+◌, ◌≤◌, ◌<◌, ◌≡◌, refl, subst, inl, inr, Bool, true, false, ◌&&◌, Option, none, some, List,
  [], ◌∷◌, arith, ltb, leb, if◌then◌else◌, ltb→lt, Bool-cases, length, Result, ok, ◌>>=◌,
  Result-cases, >>=-eq-ok, ok-injective,
}
use matterbridge.Appliances.{CommandHandler, Keeps, attributes_after}

-- MicrowaveOvenMode.ModeTag, of which the code names one.
pub data ModeTag : Type 0 where
  normal : ModeTag
  other_tag : ℕ → ModeTag

pub record ModeOption : Type 0 where
  pub mode : ℕ
  pub mode_tags : List ModeTag

pub record SetCookingParametersRequest : Type 0 where
  pub cook_mode : Option ℕ
  pub request_time : Option ℕ
  pub watt_setting_index : Option ℕ
  pub start_after_setting : Option Bool

-- The attributes of the control, mode and operational state clusters that the commands touch. The
-- index is none for -1, the last index of an empty list; the mode is none for undefined.
pub record Oven : Type 0 where
  pub cook_time : ℕ
  pub max_cook_time : ℕ
  pub selected_watt_index : Option ℕ
  pub supported_watts : List ℕ
  pub supported_modes : List ModeOption
  pub current_mode : Option ℕ
  pub is_running : Bool

unfoldable pub has_normal_tag : List ModeTag → Bool
has_normal_tag [] = false
has_normal_tag (normal ∷ ts) = true
has_normal_tag (other_tag t ∷ ts) = has_normal_tag ts

unfoldable pub normal_mode : List ModeOption → Option ℕ
unfolding has_normal_tag
normal_mode [] = none
normal_mode (m ∷ ms) = if has_normal_tag m.mode_tags then some m.mode else normal_mode ms

unfoldable pub mode_of : Option ℕ → List ModeOption → Option ℕ
mode_of (some mode) modes = some mode
mode_of none modes = normal_mode modes

unfoldable pub cook_time_of : Option ℕ → ℕ → ℕ
cook_time_of none max_time = 30
cook_time_of (some time) max_time = if leb time max_time then time else 30

unfoldable pub last_index : List ℕ → Option ℕ
last_index [] = none
last_index (w ∷ ws) = some (length ws)

unfoldable pub watt_index_of : Option ℕ → List ℕ → Option ℕ
watt_index_of none watts = last_index watts
watt_index_of (some i) watts = if ltb i (length watts) then some i else last_index watts

unfoldable pub running_after : Option Bool → Bool → Bool
running_after (some true) running = true
running_after (some false) running = running
running_after none running = running

-- The updates of setCookingParameters, after the device's handler.
unfoldable pub cooking_parameters : Oven → SetCookingParametersRequest → Oven
cooking_parameters o r = record o {
  current_mode = mode_of r.cook_mode o.supported_modes;
  cook_time = cook_time_of r.request_time o.max_cook_time;
  selected_watt_index = watt_index_of r.watt_setting_index o.supported_watts;
  is_running = running_after r.start_after_setting o.is_running;
}

-- The update of addMoreTime; timeToAdd is undefined, or a number.
unfoldable pub added_time : Oven → Option ℕ → Oven
added_time o none = o
added_time o (some time) =
    if ltb 0 time && leb (o.cook_time + time) o.max_cook_time
    then record o { cook_time = o.cook_time + time }
    else o

pub data OvenCommand : Type 0 where
  set_parameters : SetCookingParametersRequest → OvenCommand
  add_time : (time_to_add : Option ℕ) → OvenCommand

module _ {E : Type 0} (handler : CommandHandler E Oven OvenCommand) where
  unfoldable pub set_cooking_parameters : Oven → SetCookingParametersRequest → Result E Oven
  set_cooking_parameters o r = do
    handled ← handler o (set_parameters r)
    ok (cooking_parameters handled r)

  unfoldable pub add_more_time : Oven → Option ℕ → Result E Oven
  add_more_time o time = do handled ← handler o (add_time time); ok (added_time handled time)

  unfoldable pub oven_command : Oven → OvenCommand → Result E Oven
  unfolding set_cooking_parameters add_more_time
  oven_command o (set_parameters r) = set_cooking_parameters o r
  oven_command o (add_time time) = add_more_time o time

  abbrev pub run_oven : Oven → List OvenCommand → Oven
  run_oven o [] = o
  run_oven o (c ∷ cs) = run_oven (attributes_after o (oven_command o c)) cs

-- The cook time is at most the maximum, the watt index is one of the supported watts, the default
-- of 30 seconds is allowed, and some mode is Normal.
pub record IsValid (o : Oven) : Type 0 where
  pub within : o.cook_time ≤ o.max_cook_time
  pub default_fits : 30 ≤ o.max_cook_time
  pub index_in_range : (i : ℕ) × (o.selected_watt_index ≡ some i) × (i < length o.supported_watts)
  pub mode_set : (m : ℕ) × (o.current_mode ≡ some m)
  pub has_normal : (m : ℕ) × (normal_mode o.supported_modes ≡ some m)

cook_time_of_le : (r : Option ℕ) (max_time : ℕ) → 30 ≤ max_time → cook_time_of r max_time ≤ max_time
unfolding cook_time_of
cook_time_of_le none max_time h = h
cook_time_of_le (some t) max_time h = ground arith

last_index_lem :
    (ws : List ℕ) → 0 < length ws → (i : ℕ) × (last_index ws ≡ some i) × (i < length ws)
unfolding last_index
last_index_lem [] h = absurd (omega arith)
last_index_lem (w ∷ ws) h = (length ws, refl, omega arith)

watt_index_of_lem :
    (r : Option ℕ) (ws : List ℕ)
    → 0 < length ws
    → (i : ℕ) × (watt_index_of r ws ≡ some i) × (i < length ws)
unfolding watt_index_of
watt_index_of_lem none ws h = last_index_lem ws h
watt_index_of_lem (some i) ws h = elim (Bool-cases (ltb i (length ws))) [
  | inl e ↦ rw e (i, refl, ltb→lt i (length ws) e)
  | inr e ↦ rw e (last_index_lem ws h)
]

mode_of_lem :
    (r : Option ℕ) (modes : List ModeOption)
    → (m : ℕ) × (normal_mode modes ≡ some m)
    → (m : ℕ) × (mode_of r modes ≡ some m)
unfolding mode_of
mode_of_lem none modes h = h
mode_of_lem (some m) modes h = (m, refl)

cooking_parameters-IsValid :
    (o : Oven) (r : SetCookingParametersRequest) → IsValid o → IsValid (cooking_parameters o r)
unfolding cooking_parameters
cooking_parameters-IsValid o r v =
    let (i, e, below) = v.index_in_range in
    record {
      within = cook_time_of_le r.request_time o.max_cook_time v.default_fits;
      default_fits = v.default_fits;
      index_in_range = watt_index_of_lem r.watt_setting_index o.supported_watts (omega arith);
      mode_set = mode_of_lem r.cook_mode o.supported_modes v.has_normal;
      has_normal = v.has_normal;
    }

added_time-IsValid : (o : Oven) (time : Option ℕ) → IsValid o → IsValid (added_time o time)
unfolding added_time
added_time-IsValid o none v = v
added_time-IsValid o (some time) v =
    elim (Bool-cases (ltb 0 time && leb (o.cook_time + time) o.max_cook_time)) [
      | inl e ↦ rw e (record {
        within = ground arith;
        default_fits = v.default_fits;
        index_in_range = v.index_in_range;
        mode_set = v.mode_set;
        has_normal = v.has_normal;
      })
      | inr e ↦ rw e v
    ]

module _ {E : Type 0} (handler : CommandHandler E Oven OvenCommand)
    (keeps : Keeps IsValid handler) where
  oven_command-IsValid :
      (o : Oven) (c : OvenCommand) {o' : Oven}
      → IsValid o
      → oven_command handler o c ≡ ok o'
      → IsValid o'
  unfolding oven_command
  oven_command-IsValid o (set_parameters r) v h =
      let (s, e, k) = >>=-eq-ok (handler o (set_parameters r)) _ h in
      subst IsValid (ok-injective k)
        (cooking_parameters-IsValid s r (keeps o (set_parameters r) s v e))
  oven_command-IsValid o (add_time t) v h =
      let (s, e, k) = >>=-eq-ok (handler o (add_time t)) _ h in
      subst IsValid (ok-injective k) (added_time-IsValid s t (keeps o (add_time t) s v e))

  -- If the device's own code keeps the oven valid, then so does any sequence of commands, whatever
  -- they ask for and whether or not a handler throws: the cook time stays within the maximum, the
  -- watt index stays one of the supported watts, and the mode stays set. Valid includes that the
  -- maximum is at least the default of 30 seconds and that some supported mode is Normal.
  pub run_oven-IsValid :
      (o : Oven) (cs : List OvenCommand) → IsValid o → IsValid (run_oven handler o cs)
  run_oven-IsValid o [] v = v
  run_oven-IsValid o (c ∷ cs) v = elim (Result-cases (oven_command handler o c)) [
    | inl (s, e) ↦ rw e (run_oven-IsValid s cs (oven_command-IsValid o c v e))
    | inr (x, e) ↦ rw e (run_oven-IsValid o cs v)
  ]
