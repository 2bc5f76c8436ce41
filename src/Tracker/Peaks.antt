-- ===== src/Tracker/Peaks.antt =====
-- tracker.ts: what the peaks of the newest entry are after a reset and any number of samples.
use matterbridge.Base.{
  ℕ, ◌+◌, ◌-◌, ◌%◌, max, ◌≡◌, refl, ap, ◌∙◌, List, [], ◌∷◌, map, arith, if◌then◌else◌, get_or,
  get_or-set, max,
}
use matterbridge.Tracker.{
  Sample, Tracker, prev_index, prev_entry, zero_snapshot, on_interval, reset_peaks, without_peaks,
}
use matterbridge.Tracker.Metrics.{
  Metric, peak, reading, is_reset, peak-snapshot, peak-without_peaks,
}
use matterbridge.Tracker.Buffer.{
  IsValid, on_interval-IsValid, reset_peaks-IsValid, entry_at, entry_at-newest, run,
}

-- The greatest of a number and the numbers of a list.
abbrev pub greatest : ℕ → List ℕ → ℕ
greatest n [] = n
greatest n (x ∷ xs) = greatest (max n x) xs

newest_prev : (t : Tracker) → prev_entry t ≡ entry_at t 0
newest_prev t =
    let same : (t.history_index + 2880 - 1) % 2880 ≡ (t.history_index + 2880 - 1 - 0) % 2880 =
      omega arith in
    ap (λ i. get_or t.history i zero_snapshot) same

peak-on_interval :
    (t : Tracker) (ms : ℕ) (s : Sample) (m : Metric)
    → IsValid t
    → peak m (prev_entry (on_interval t ms s)) ≡ max (peak m (prev_entry t)) (reading m s)
peak-on_interval t ms s m v =
    ap (peak m) (newest_prev (on_interval t ms s) ∙ entry_at-newest t ms s v)
    ∙ peak-snapshot m (prev_entry t) s

peak-run :
    (t : Tracker) (ms : ℕ) (ss : List Sample) (m : Metric)
    → IsValid t
    → peak m (prev_entry (run t ms ss)) ≡ greatest (peak m (prev_entry t)) (map (reading m) ss)
peak-run t ms [] m v = refl
peak-run t ms (s ∷ ss) m v =
    peak-run (on_interval t ms s) ms ss m (on_interval-IsValid t ms s v)
    ∙ ap (λ n. greatest n (map (reading m) ss)) (peak-on_interval t ms s m v)

prev_entry-reset_peaks :
    (t : Tracker) → IsValid t → prev_entry (reset_peaks t) ≡ without_peaks (prev_entry t)
unfolding reset_peaks
prev_entry-reset_peaks t v = get_or-set t.history (prev_index t) _ zero_snapshot (omega arith)

-- After the peaks of a valid tracker are reset and any samples are taken, the newest peak of a
-- metric is the greatest of the samples since the reset; but for the free and the total memory it is
-- the greatest of these and the peak before, since the reset leaves their peaks.
pub run-reset_peaks :
    (t : Tracker) (ms : ℕ) (ss : List Sample) (m : Metric)
    → IsValid t
    → peak m (prev_entry (run (reset_peaks t) ms ss))
      ≡ greatest (if is_reset m then 0 else peak m (prev_entry t)) (map (reading m) ss)
run-reset_peaks t ms ss m v =
    peak-run (reset_peaks t) ms ss m (reset_peaks-IsValid t v)
    ∙ ap (λ n. greatest n (map (reading m) ss))
        (ap (peak m) (prev_entry-reset_peaks t v) ∙ peak-without_peaks m (prev_entry t))
