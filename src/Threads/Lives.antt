-- ===== src/Threads/Lives.antt =====
-- threadsManager.ts: the record of a thread over the life of one of its workers.
use matterbridge.Base.{
  ℕ, ◌+◌, ◌-◌, ◌≡◌, refl, ap, ◌∙◌, Bool, true, false, Option, none, some, List, [], ◌∷◌, ◌++◌,
  arith, ◌==◌, if◌then◌else◌, ==_refl, All,
}
use matterbridge.Threads.{
  ThreadInfo, WorkerEvent, online, exited, message_error, error, message, log, init, exit, unknown,
  or_else, started, is_worker, on_exit, on_message, on_event,
}

-- The events of a worker, with the time at which they are handled.
unfoldable pub run_events : ℕ → List (ℕ × WorkerEvent) → ThreadInfo → ThreadInfo
unfolding on_event
run_events worker [] t = t
run_events worker ((now, e) ∷ events) t = run_events worker events (on_event now worker e t)

-- An event that does not end the life of a worker.
abbrev pub goes_on : WorkerEvent → Bool
goes_on online = true
goes_on exited = false
goes_on message_error = true
goes_on error = false
goes_on (message log) = true
goes_on (message init) = true
goes_on (message exit) = false
goes_on (message unknown) = true

-- How a worker ends: it says that it exits and then does, it fails and then exits, or it just exits.
pub data Ending : Type 0 where
  says_exit fails : ℕ → ℕ → Ending
  quits : ℕ → Ending

abbrev pub ending_events : Ending → List (ℕ × WorkerEvent)
ending_events (says_exit now later) = (now, message exit) ∷ (later, exited) ∷ []
ending_events (fails now later) = (now, error) ∷ (later, exited) ∷ []
ending_events (quits now) = (now, exited) ∷ []

abbrev pub stopped_at : Ending → ℕ
stopped_at (says_exit now later) = now
stopped_at (fails now later) = now
stopped_at (quits now) = now

abbrev pub failures : Ending → ℕ
failures (fails now later) = 1
failures _ = 0

-- What the record of a thread must say after some events: how often a worker said that it starts, the
-- last time it did, and how many errors there were.
abbrev pub starts : List (ℕ × WorkerEvent) → ℕ
starts [] = 0
starts ((now, message init) ∷ events) = 1 + starts events
starts ((now, e) ∷ events) = starts events

abbrev pub last_start : Option ℕ → List (ℕ × WorkerEvent) → Option ℕ
last_start before [] = before
last_start before ((now, message init) ∷ events) = last_start (some now) events
last_start before ((now, e) ∷ events) = last_start before events

abbrev pub errors : List (ℕ × WorkerEvent) → ℕ
errors [] = 0
errors ((now, message_error) ∷ events) = 1 + errors events
errors ((now, e) ∷ events) = errors events

-- A counter after `n` more; one that was never counted is undefined.
abbrev pub counted : Option ℕ → ℕ → Option ℕ
counted before n = if n == 0 then before else some (or_else before 0 + n)

counted-one_more :
    (before : Option ℕ) (n : ℕ) → counted (some (or_else before 0 + 1)) n ≡ counted before (1 + n)
counted-one_more none n = ground arith
counted-one_more (some c) n = ground arith

-- The record of a thread after a worker, by its counters and its start before.
abbrev pub IsOver :
    (runs error_count start : Option ℕ) → List (ℕ × WorkerEvent) → Ending → ThreadInfo → Type 0
IsOver runs error_count start events ending after =
    (after.worker ≡ none)
    × (after.run_count ≡ counted runs (starts events))
    × (after.error_count ≡ counted error_count (errors events + failures ending))
    × (after.last_started ≡ last_start start events)
    × (after.last_stopped ≡ some (stopped_at ending))
    × (after.last_duration
        ≡ some (stopped_at ending - or_else (last_start start events) (stopped_at ending)))

ending-IsOver :
    (worker : ℕ) (ending : Ending) (t : ThreadInfo)
    → t.worker ≡ some worker
    → IsOver t.run_count t.error_count t.last_started [] ending
        (run_events worker (ending_events ending) t)
unfolding run_events on_exit on_message is_worker
ending-IsOver worker (says_exit now later) t w = (refl, refl, refl, refl, refl, refl)
ending-IsOver worker (fails now later) t w = (refl, refl, refl, refl, refl, refl)
ending-IsOver worker (quits now) t w = rw (w, ==_refl worker) (refl, refl, refl, refl, refl, refl)

events-IsOver :
    (worker : ℕ) (events : List (ℕ × WorkerEvent)) (ending : Ending) (t : ThreadInfo)
    → t.worker ≡ some worker
    → All (λ e. goes_on e.1 ≡ true) events
    → IsOver t.run_count t.error_count t.last_started events ending
        (run_events worker (events ++ ending_events ending) t)
unfolding run_events on_message
events-IsOver worker [] ending t w h = ending-IsOver worker ending t w
events-IsOver worker ((now, online) ∷ events) ending t w h =
    events-IsOver worker events ending t w h.1
events-IsOver worker ((now, exited) ∷ events) ending t w h = absurd (ground (arith, h.0))
events-IsOver worker ((now, error) ∷ events) ending t w h = absurd (ground (arith, h.0))
events-IsOver worker ((now, message exit) ∷ events) ending t w h = absurd (ground (arith, h.0))
events-IsOver worker ((now, message_error) ∷ events) ending t w h =
    let over =
      events-IsOver worker events ending
        (record t { error_count = some (or_else t.error_count 0 + 1) }) w h.1 in
    (
      over.0,
      over.1,
      over.2
          ∙ counted-one_more t.error_count (errors events + failures ending)
          ∙ ap (counted t.error_count) (omega arith),
      over.3,
      over.4,
      over.5,
    )
events-IsOver worker ((now, message init) ∷ events) ending t w h =
    let over = events-IsOver worker events ending (on_message now init t) w h.1 in
    (over.0, over.1 ∙ counted-one_more t.run_count (starts events), over.2, over.3, over.4, over.5)
events-IsOver worker ((now, message log) ∷ events) ending t w h =
    events-IsOver worker events ending (record t { last_seen = some now }) w h.1
events-IsOver worker ((now, message unknown) ∷ events) ending t w h =
    events-IsOver worker events ending (record t { last_seen = some now }) w h.1

-- After the life of a worker of a thread that was just started, whatever messages and message errors
-- there were before it ended, and whether or not it ever said that it starts, the thread has no worker,
-- so that it can be started again. It counts one more run for each time that the worker said so, and
-- one more error for each message error, and one if the worker failed in the end. Its start is the last
-- time that the worker said so, or undefined; it stopped when the worker said that it exits, or failed,
-- or else exited; and its duration is the time between the two, or 0. The end is one of three: the
-- worker says that it exits, or fails, and then exits, or it just exits.
pub life-IsOver :
    (worker : ℕ) (events : List (ℕ × WorkerEvent)) (ending : Ending) (t : ThreadInfo)
    → All (λ e. goes_on e.1 ≡ true) events
    → IsOver t.run_count t.error_count none events ending
        (run_events worker (events ++ ending_events ending) (started (some worker) t))
unfolding started
life-IsOver worker events ending t h =
    events-IsOver worker events ending (started (some worker) t) refl h
