-- ===== src/Tracker/Metrics.antt =====
-- tracker.ts: the nine metrics of a snapshot, each with its peak.
use matterbridge.Base.{ℕ, max, ◌≡◌, refl, Bool, true, false, if◌then◌else◌, max}
use matterbridge.Tracker.{Sample, TrackerSnapshot, snapshot, without_peaks}

pub data Metric : Type 0 where
  of_os_cpu of_process_cpu of_free_memory of_total_memory of_rss of_heap_used of_heap_total
        of_external of_array_buffers :
      Metric

abbrev pub value : Metric → TrackerSnapshot → ℕ
value of_os_cpu e = e.os_cpu
value of_process_cpu e = e.process_cpu
value of_free_memory e = e.free_memory
value of_total_memory e = e.total_memory
value of_rss e = e.rss
value of_heap_used e = e.heap_used
value of_heap_total e = e.heap_total
value of_external e = e.external
value of_array_buffers e = e.array_buffers

abbrev pub peak : Metric → TrackerSnapshot → ℕ
peak of_os_cpu e = e.peak_os_cpu
peak of_process_cpu e = e.peak_process_cpu
peak of_free_memory e = e.peak_free_memory
peak of_total_memory e = e.peak_total_memory
peak of_rss e = e.peak_rss
peak of_heap_used e = e.peak_heap_used
peak of_heap_total e = e.peak_heap_total
peak of_external e = e.peak_external
peak of_array_buffers e = e.peak_array_buffers

abbrev pub reading : Metric → Sample → ℕ
reading of_os_cpu s = s.os_cpu_now
reading of_process_cpu s = s.process_cpu_now
reading of_free_memory s = s.free_memory_now
reading of_total_memory s = s.total_memory_now
reading of_rss s = s.rss_now
reading of_heap_used s = s.heap_used_now
reading of_heap_total s = s.heap_total_now
reading of_external s = s.external_now
reading of_array_buffers s = s.array_buffers_now

-- The metrics whose peak a reset clears.
abbrev pub is_reset : Metric → Bool
is_reset of_free_memory = false
is_reset of_total_memory = false
is_reset m = true

pub value-snapshot :
    (m : Metric) (prev : TrackerSnapshot) (s : Sample) → value m (snapshot prev s) ≡ reading m s
unfolding snapshot
value-snapshot of_os_cpu prev s = refl
value-snapshot of_process_cpu prev s = refl
value-snapshot of_free_memory prev s = refl
value-snapshot of_total_memory prev s = refl
value-snapshot of_rss prev s = refl
value-snapshot of_heap_used prev s = refl
value-snapshot of_heap_total prev s = refl
value-snapshot of_external prev s = refl
value-snapshot of_array_buffers prev s = refl

pub peak-snapshot :
    (m : Metric) (prev : TrackerSnapshot) (s : Sample)
    → peak m (snapshot prev s) ≡ max (peak m prev) (reading m s)
unfolding snapshot
peak-snapshot of_os_cpu prev s = refl
peak-snapshot of_process_cpu prev s = refl
peak-snapshot of_free_memory prev s = refl
peak-snapshot of_total_memory prev s = refl
peak-snapshot of_rss prev s = refl
peak-snapshot of_heap_used prev s = refl
peak-snapshot of_heap_total prev s = refl
peak-snapshot of_external prev s = refl
peak-snapshot of_array_buffers prev s = refl

pub peak-without_peaks :
    (m : Metric) (e : TrackerSnapshot)
    → peak m (without_peaks e) ≡ (if is_reset m then 0 else peak m e)
unfolding without_peaks
peak-without_peaks of_os_cpu e = refl
peak-without_peaks of_process_cpu e = refl
peak-without_peaks of_free_memory e = refl
peak-without_peaks of_total_memory e = refl
peak-without_peaks of_rss e = refl
peak-without_peaks of_heap_used e = refl
peak-without_peaks of_heap_total e = refl
peak-without_peaks of_external e = refl
peak-without_peaks of_array_buffers e = refl
