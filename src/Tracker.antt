-- ===== src/Tracker.antt =====
-- packages/utils/src/tracker.ts: the circular buffer of the cpu and memory samples with the peaks of
-- class Tracker, its interval and its hourly garbage collection. What the system reports is a
-- parameter, the sample; loads are in hundredths of a percent, as toFixed(2) leaves them.
pub mod Metrics
pub mod Buffer
pub mod Peaks
pub mod Tests
use matterbridge.Base.{
  ℕ, zero, suc, ◌+◌, ◌-◌, ◌*◌, ◌%◌, max, Bool, Option, none, some, List, [], ◌∷◌, ltb,
  if◌then◌else◌, get_or, set, max, is_some,
}

-- What the callback reads from the system.
pub record Sample : Type 0 where
  pub taken_at : ℕ
  pub os_cpu_now : ℕ
  pub process_cpu_now : ℕ
  pub free_memory_now : ℕ
  pub total_memory_now : ℕ
  pub rss_now : ℕ
  pub heap_used_now : ℕ
  pub heap_total_now : ℕ
  pub external_now : ℕ
  pub array_buffers_now : ℕ

pub record TrackerSnapshot : Type 0 where
  pub timestamp : ℕ
  pub os_cpu : ℕ
  pub peak_os_cpu : ℕ
  pub process_cpu : ℕ
  pub peak_process_cpu : ℕ
  pub free_memory : ℕ
  pub peak_free_memory : ℕ
  pub total_memory : ℕ
  pub peak_total_memory : ℕ
  pub rss : ℕ
  pub peak_rss : ℕ
  pub heap_used : ℕ
  pub peak_heap_used : ℕ
  pub heap_total : ℕ
  pub peak_heap_total : ℕ
  pub external : ℕ
  pub peak_external : ℕ
  pub array_buffers : ℕ
  pub peak_array_buffers : ℕ

pub record Tracker : Type 0 where
  pub history : List TrackerSnapshot
  pub history_index : ℕ
  pub interval_ms : Option ℕ
  pub try_gc_ms : ℕ

abbrev pub history_size : ℕ
history_size = 2880

abbrev pub zero_snapshot : TrackerSnapshot
zero_snapshot = record {
  timestamp = 0;
  os_cpu = 0;
  peak_os_cpu = 0;
  process_cpu = 0;
  peak_process_cpu = 0;
  free_memory = 0;
  peak_free_memory = 0;
  total_memory = 0;
  peak_total_memory = 0;
  rss = 0;
  peak_rss = 0;
  heap_used = 0;
  peak_heap_used = 0;
  heap_total = 0;
  peak_heap_total = 0;
  external = 0;
  peak_external = 0;
  array_buffers = 0;
  peak_array_buffers = 0;
}

unfoldable pub repeat : {A : Type 0} → ℕ → A → List A
repeat zero a = []
repeat (suc n) a = a ∷ repeat n a

-- The static history at the start of the program.
unfoldable pub new_tracker : Tracker
unfolding repeat
new_tracker = record {
  history = repeat history_size zero_snapshot;
  history_index = 0;
  interval_ms = none;
  try_gc_ms = 0;
}

abbrev pub prev_index : Tracker → ℕ
prev_index t = (t.history_index + history_size - 1) % history_size

abbrev pub prev_entry : Tracker → TrackerSnapshot
prev_entry t = get_or t.history (prev_index t) zero_snapshot

-- The entry that the callback fills from the entry before it and the sample.
unfoldable pub snapshot : TrackerSnapshot → Sample → TrackerSnapshot
snapshot prev s = record {
  timestamp = s.taken_at;
  os_cpu = s.os_cpu_now;
  peak_os_cpu = max prev.peak_os_cpu s.os_cpu_now;
  process_cpu = s.process_cpu_now;
  peak_process_cpu = max prev.peak_process_cpu s.process_cpu_now;
  free_memory = s.free_memory_now;
  peak_free_memory = max prev.peak_free_memory s.free_memory_now;
  total_memory = s.total_memory_now;
  peak_total_memory = max prev.peak_total_memory s.total_memory_now;
  rss = s.rss_now;
  peak_rss = max prev.peak_rss s.rss_now;
  heap_used = s.heap_used_now;
  peak_heap_used = max prev.peak_heap_used s.heap_used_now;
  heap_total = s.heap_total_now;
  peak_heap_total = max prev.peak_heap_total s.heap_total_now;
  external = s.external_now;
  peak_external = max prev.peak_external s.external_now;
  array_buffers = s.array_buffers_now;
  peak_array_buffers = max prev.peak_array_buffers s.array_buffers_now;
}

-- `setInterval` is called only if no interval runs.
unfoldable pub start : Tracker → ℕ → Tracker
start t sample_interval_ms =
    if is_some t.interval_ms
    then t
    else record t { interval_ms = some sample_interval_ms; try_gc_ms = 0 }

-- Whether the callback runs the garbage collector, counting milliseconds: after an hour.
unfoldable pub runs_gc : Tracker → ℕ → Bool
runs_gc t ms = ltb (60 * 60 * 1000) (t.try_gc_ms + ms)

-- The callback of the interval `ms`.
unfoldable pub on_interval : Tracker → ℕ → Sample → Tracker
unfolding snapshot runs_gc
on_interval t ms s = record {
  history = set t.history t.history_index (snapshot (prev_entry t) s);
  history_index = (t.history_index + 1) % history_size;
  interval_ms = t.interval_ms;
  try_gc_ms = if runs_gc t ms then 0 else t.try_gc_ms + ms;
}

-- The entry whose peaks are reset; those of the free and the total memory stay.
unfoldable pub without_peaks : TrackerSnapshot → TrackerSnapshot
without_peaks e = record e {
  peak_os_cpu = 0;
  peak_process_cpu = 0;
  peak_rss = 0;
  peak_heap_used = 0;
  peak_heap_total = 0;
  peak_external = 0;
  peak_array_buffers = 0;
}

unfoldable pub reset_peaks : Tracker → Tracker
unfolding without_peaks
reset_peaks t = record t { history = set t.history (prev_index t) (without_peaks (prev_entry t)) }

unfoldable pub stop : Tracker → Tracker
stop t = record t { interval_ms = none }

-- A round of the timer, which calls back while an interval is set.
unfoldable pub on_timer : Tracker → Option ℕ → Sample → Tracker
unfolding on_interval
on_timer t none s = t
on_timer t (some ms) s = on_interval t ms s

-- What happens to a tracker: its events, and a round of the interval, which runs while one is set.
pub data TrackerEvent : Type 0 where
  started : (sample_interval_ms : ℕ) → TrackerEvent
  sampled : Sample → TrackerEvent
  peaks_reset stopped : TrackerEvent

unfoldable pub on_event : Tracker → TrackerEvent → Tracker
unfolding start on_timer reset_peaks stop
on_event t (started ms) = start t ms
on_event t (sampled s) = on_timer t t.interval_ms s
on_event t peaks_reset = reset_peaks t
on_event t stopped = stop t
