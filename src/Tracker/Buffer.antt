-- ===== src/Tracker/Buffer.antt =====
-- tracker.ts: the circular buffer keeps the last 2880 samples, and its invariant.
use matterbridge.Base.{
  ℕ, zero, suc, ◌+◌, ◌-◌, ◌%◌, ◌≤◌, ◌<◌, ◌≡◌, refl, sym, ap, ◌∙◌, inl, inr, Option, none, some,
  List, [], ◌∷◌, arith, Bool-cases, length, get_or, length-set, get_or-set, get_or-set_other,
  is_some,
}
use matterbridge.Tracker.{
  Sample, TrackerSnapshot, Tracker, zero_snapshot, repeat, new_tracker, prev_index, prev_entry,
  snapshot, start, runs_gc, on_interval, on_timer, reset_peaks, stop, TrackerEvent, started,
  sampled, peaks_reset, stopped, on_event,
}
use matterbridge.Tracker.Metrics.{Metric, value, reading, value-snapshot}

pub record IsValid (t : Tracker) : Type 0 where
  pub full : length t.history ≡ 2880
  pub within : t.history_index < 2880
  pub hourly : t.try_gc_ms ≤ 3600000

length-repeat : {A : Type 0} (n : ℕ) (a : A) → length (repeat n a) ≡ n
unfolding repeat
length-repeat zero a = refl
length-repeat (suc n) a = ap suc (length-repeat n a)

pub new_tracker-IsValid : IsValid new_tracker
unfolding new_tracker
new_tracker-IsValid = record {
  full = length-repeat 2880 zero_snapshot;
  within = omega arith;
  hourly = omega arith;
}

pub on_interval-IsValid :
    (t : Tracker) (ms : ℕ) (s : Sample) → IsValid t → IsValid (on_interval t ms s)
unfolding on_interval runs_gc
on_interval-IsValid t ms s v = record {
  full = length-set t.history t.history_index _ ∙ v.full;
  within = omega arith;
  hourly = ground arith;
}

pub reset_peaks-IsValid : (t : Tracker) → IsValid t → IsValid (reset_peaks t)
unfolding reset_peaks
reset_peaks-IsValid t v = record {
  full = length-set t.history (prev_index t) _ ∙ v.full;
  within = v.within;
  hourly = v.hourly;
}

start-IsValid : (t : Tracker) (ms : ℕ) → IsValid t → IsValid (start t ms)
unfolding start
start-IsValid t ms v = elim (Bool-cases (is_some t.interval_ms)) [
  | inl e ↦ rw e v
  | inr e ↦ rw e (record { full = v.full; within = v.within; hourly = omega arith })
]

on_timer-IsValid :
    (t : Tracker) (interval : Option ℕ) (s : Sample) → IsValid t → IsValid (on_timer t interval s)
unfolding on_timer
on_timer-IsValid t none s v = v
on_timer-IsValid t (some ms) s v = on_interval-IsValid t ms s v

-- Starting, stopping, resetting the peaks and taking samples keep the tracker valid: the buffer has
-- its 2880 entries, the index is one of them, and the count of milliseconds since the last garbage
-- collection is at most an hour.
pub on_event-IsValid : (t : Tracker) (e : TrackerEvent) → IsValid t → IsValid (on_event t e)
unfolding on_event stop
on_event-IsValid t (started ms) v = start-IsValid t ms v
on_event-IsValid t (sampled s) v = on_timer-IsValid t t.interval_ms s v
on_event-IsValid t peaks_reset v = reset_peaks-IsValid t v
on_event-IsValid t stopped v = record { full = v.full; within = v.within; hourly = v.hourly }

-- The entry that was filled `age` samples before the newest.
abbrev pub entry_at : Tracker → ℕ → TrackerSnapshot
entry_at t age = get_or t.history ((t.history_index + 2880 - 1 - age) % 2880) zero_snapshot

abbrev pub run : Tracker → ℕ → List Sample → Tracker
run t ms [] = t
run t ms (s ∷ ss) = run (on_interval t ms s) ms ss

pub run-IsValid : (t : Tracker) (ms : ℕ) (ss : List Sample) → IsValid t → IsValid (run t ms ss)
run-IsValid t ms [] v = v
run-IsValid t ms (s ∷ ss) v = run-IsValid (on_interval t ms s) ms ss (on_interval-IsValid t ms s v)

pub entry_at-newest :
    (t : Tracker) (ms : ℕ) (s : Sample)
    → IsValid t
    → entry_at (on_interval t ms s) 0 ≡ snapshot (prev_entry t) s
unfolding on_interval
entry_at-newest t ms s v =
    let here : ((t.history_index + 1) % 2880 + 2880 - 1 - 0) % 2880 ≡ t.history_index =
      omega arith in
    rw here (get_or-set t.history t.history_index _ zero_snapshot (omega arith))

entry_at-older :
    (t : Tracker) (ms : ℕ) (s : Sample) (age : ℕ)
    → IsValid t
    → age + 1 < 2880
    → entry_at (on_interval t ms s) (age + 1) ≡ entry_at t age
unfolding on_interval
entry_at-older t ms s age v h =
    let same : ((t.history_index + 1) % 2880 + 2880 - 1 - (age + 1)) % 2880
        ≡ (t.history_index + 2880 - 1 - age) % 2880 =
      omega arith in
    rw same (
      get_or-set_other t.history t.history_index ((t.history_index + 2880 - 1 - age) % 2880) _
        zero_snapshot (λ e. absurd (omega arith)))

run_older :
    (t : Tracker) (ms : ℕ) (ss : List Sample) (age : ℕ)
    → IsValid t
    → age + length ss < 2880
    → entry_at (run t ms ss) (age + length ss) ≡ entry_at t age
run_older t ms [] age v h = let same : age + 0 ≡ age = omega arith in rw same refl
run_older t ms (s ∷ ss) age v h =
    let same : age + suc (length ss) ≡ age + 1 + length ss = omega arith in
    rw same (
      run_older (on_interval t ms s) ms ss (age + 1) (on_interval-IsValid t ms s v) (omega arith)
      ∙ entry_at-older t ms s age v (omega arith))

-- A sample stays in the buffer of a valid tracker until 2880 more are taken: as long as fewer than
-- 2880 have followed it, the entry as many places before the newest holds each of its metrics.
pub run-recorded :
    (t : Tracker) (ms : ℕ) (s : Sample) (ss : List Sample) (m : Metric)
    → IsValid t
    → length ss < 2880
    → value m (entry_at (run t ms (s ∷ ss)) (length ss)) ≡ reading m s
run-recorded t ms s ss m v h =
    let same : 0 + length ss ≡ length ss = omega arith in
    let kept : entry_at (run t ms (s ∷ ss)) (length ss) ≡ snapshot (prev_entry t) s =
      ap (λ age. entry_at (run t ms (s ∷ ss)) age) (sym same)
      ∙ run_older (on_interval t ms s) ms ss 0 (on_interval-IsValid t ms s v) (omega arith)
      ∙ entry_at-newest t ms s v in
    ap (value m) kept ∙ value-snapshot m (prev_entry t) s
