-- ===== src/Tracker/Tests.antt =====
-- The tracker on two samples, and its theorems there.
use matterbridge.Base.{ℕ, ◌≡◌, List, [], ◌∷◌, map, arith, if◌then◌else◌, length}
use matterbridge.Tracker.{Sample, new_tracker, prev_entry, reset_peaks}
use matterbridge.Tracker.Metrics.{peak, value, reading, is_reset, of_rss}
use matterbridge.Tracker.Buffer.{new_tracker-IsValid, entry_at, run, run-recorded}
use matterbridge.Tracker.Peaks.{greatest, run-reset_peaks}

abbrev sample : ℕ → ℕ → Sample
sample time used = record {
  taken_at = time;
  os_cpu_now = 250;
  process_cpu_now = 100;
  free_memory_now = 700;
  total_memory_now = 1000;
  rss_now = used;
  heap_used_now = 20;
  heap_total_now = 30;
  external_now = 4;
  array_buffers_now = 5;
}

abbrev samples : List Sample
samples = sample 10000 90 ∷ sample 20000 60 ∷ []

run-recorded_example :
    value of_rss (entry_at (run new_tracker 10000 (sample 0 80 ∷ samples)) (length samples))
    ≡ reading of_rss (sample 0 80)
run-recorded_example =
    run-recorded new_tracker 10000 (sample 0 80) samples of_rss new_tracker-IsValid (omega arith)

run-reset_peaks_example :
    peak of_rss (prev_entry (run (reset_peaks new_tracker) 10000 samples))
    ≡ greatest
        (if is_reset of_rss then 0 else peak of_rss (prev_entry new_tracker))
        (map (reading of_rss) samples)
run-reset_peaks_example = run-reset_peaks new_tracker 10000 samples of_rss new_tracker-IsValid
