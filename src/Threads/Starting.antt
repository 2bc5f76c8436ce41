-- ===== src/Threads/Starting.antt =====
-- threadsManager.ts: when a thread is started, and what that does to the table.
use matterbridge.Base.{
  ℕ, ◌≡◌, refl, subst, Bool, true, false, ◌&&◌, ◌||◌, not, Option, none, some, List, [], ◌∷◌, arith,
  Result, ok, err, same_text, same_text_iff, is_some, same_text, same_text, same_text_iff,
}
use matterbridge.Threads.{
  ThreadInfo, find_thread, change_thread, started, ThreadError, run_checked, check_thread,
  run_thread, manager_run, answer, resolve_path, first_existing,
}

abbrev pub after : (ThreadInfo → ThreadInfo) → Bool → Option ThreadInfo → Option ThreadInfo
after change false found = found
after change true none = none
after change true (some t) = some (change t)

after-none : (change : ThreadInfo → ThreadInfo) (changed : Bool) → none ≡ after change changed none
after-none change true = refl
after-none change false = refl

find_thread-change_thread :
    (change : ThreadInfo → ThreadInfo) (name other : List ℕ) (threads : List ThreadInfo)
    → ((t : ThreadInfo) → (change t).name ≡ t.name)
    → find_thread other (change_thread change name threads)
      ≡ after change (same_text name other) (find_thread other threads)
unfolding find_thread change_thread
find_thread-change_thread change name other [] h = after-none change (same_text name other)
find_thread-change_thread change name other (t ∷ threads) h = ground (
  arith,
  h t,
  same_text_iff t.name name,
  same_text_iff t.name other,
  same_text_iff name other,
  find_thread-change_thread change name other threads h,
)

module _ (exists : List ℕ → Bool) (current dist workers : List ℕ → List ℕ) where
  -- A thread that can be started: it is known, has no worker, and its file is at one of three places.
  abbrev pub can_start : Option ThreadInfo → Bool
  can_start none = false
  can_start (some t) =
      not (is_some t.worker)
      && (exists (current t.path) || exists (dist t.path) || exists (workers t.path))

  exists-resolve_path :
      (file_name : List ℕ)
      → exists (resolve_path exists current dist workers file_name)
        ≡ exists (current file_name) || exists (dist file_name) || exists (workers file_name)
  unfolding resolve_path first_existing
  exists-resolve_path file_name = ground arith

  check_thread-ok :
      (found : Option ThreadInfo)
      → answer (check_thread exists current dist workers found) ≡ can_start found
  unfolding check_thread answer
  check_thread-ok none = refl
  check_thread-ok (some t) = ground (arith, exists-resolve_path t.path)

  run_checked_lem :
      (worker : Option ℕ) (name : List ℕ) (threads : List ThreadInfo)
      (checked : Result ThreadError (Unit {0}))
      → (answer (run_checked worker name threads checked).0 ≡ answer checked && is_some worker)
        × ((other : List ℕ)
            → find_thread other (run_checked worker name threads checked).1
              ≡ after
                  (started worker)
                  (answer checked && same_text name other)
                  (find_thread other threads))
  unfolding answer run_checked started
  run_checked_lem worker name threads (err e) = (refl, λ other. refl)
  run_checked_lem none name threads (ok u) =
      (refl, λ other. find_thread-change_thread (started none) name other threads (λ t. refl))
  run_checked_lem (some w) name threads (ok u) =
      (refl, λ other. find_thread-change_thread (started (some w)) name other threads (λ t. refl))

  pub manager_run_lem :
      (worker : Option ℕ) (name : List ℕ) (threads : List ThreadInfo)
      → ((manager_run exists current dist workers worker name threads).0
          ≡ can_start (find_thread name threads) && is_some worker)
        × ((other : List ℕ)
            → find_thread other (manager_run exists current dist workers worker name threads).1
              ≡ after
                  (started worker)
                  (can_start (find_thread name threads) && same_text name other)
                  (find_thread other threads))
  unfolding manager_run run_thread
  manager_run_lem worker name threads =
      let checked = check_thread exists current dist workers (find_thread name threads) in
      subst
        (λ can.
          (answer (run_checked worker name threads checked).0 ≡ can && is_some worker)
          × ((other : List ℕ)
              → find_thread other (run_checked worker name threads checked).1
                ≡ after (started worker) (can && same_text name other) (find_thread other threads)))
        (check_thread-ok (find_thread name threads)) (run_checked_lem worker name threads checked)
