-- ===== src/Threads/Tests.antt =====
-- One thread and its workers, and the theorems there.
use matterbridge.Base.{
  ℕ, ◌≡◌, refl, Bool, true, ◌&&◌, none, some, List, [], ◌∷◌, ◌++◌, same_text, same_text, same_text,
}
use matterbridge.Threads.{
  ThreadInfo, new_thread, find_thread, started, manager_run, WorkerEvent, online, message_error,
  init, log, exited, error, message, exit, on_event,
}
use matterbridge.Threads.Starting.{after, can_start, manager_run_lem}
use matterbridge.Threads.Lives.{run_events, fails, ending_events, IsOver, life-IsOver}

abbrev check_updates : List ℕ
check_updates = b'C' ∷ b'U' ∷ []

abbrev thread : ThreadInfo
thread = new_thread check_updates (b'w' ∷ [])

abbrev exists : List ℕ → Bool
exists path = true

abbrev there : List ℕ → List ℕ
there path = path

manager_run_lem_example :
    ((manager_run exists there there there (some 7) check_updates (thread ∷ [])).0
      ≡ can_start exists there there there (find_thread check_updates (thread ∷ [])) && true)
    × ((other : List ℕ)
        → find_thread other
            (manager_run exists there there there (some 7) check_updates (thread ∷ [])).1
          ≡ after
              (started (some 7))
              (can_start exists there there there (find_thread check_updates (thread ∷ []))
                && same_text check_updates other)
              (find_thread other (thread ∷ [])))
manager_run_lem_example =
    manager_run_lem exists there there there (some 7) check_updates (thread ∷ [])

abbrev events : List (ℕ × WorkerEvent)
events = (10, online) ∷ (15, message_error) ∷ (20, message init) ∷ (21, message log) ∷ []

life-IsOver_example :
    IsOver thread.run_count thread.error_count none events
      (fails 30 31)
      (run_events 7 (events ++ ending_events (fails 30 31)) (started (some 7) thread))
life-IsOver_example = life-IsOver 7 events (fails 30 31) thread (refl, (refl, (refl, (refl, tt))))

-- Worker 7 said that it exits, worker 8 was started, and then worker 7 fails: the thread has lost
-- worker 8, while its exit would not have counted.
late_error :
    ((on_event 40 7 error
        (started (some 8) (on_event 30 7 (message exit) (started (some 7) thread)))).worker
      ≡ none)
    × ((on_event 40 7 exited
          (started (some 8) (on_event 30 7 (message exit) (started (some 7) thread)))).worker
        ≡ some 8)
unfolding on_event started
late_error = (refl, refl)
