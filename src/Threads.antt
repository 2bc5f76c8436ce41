-- ===== src/Threads.antt =====
-- packages/thread/src/threadsManager.ts: class ThreadsManager, its table of threads, the start of a
-- thread and the events of its worker. A worker is known by its identity, a number. Which files there
-- are, the clock and the worker that `new Worker` makes, or none if it throws, are arguments.
pub mod Starting
pub mod Lives
pub mod Tests
use matterbridge.Base.{
  ℕ, ◌+◌, ◌-◌, ◌*◌, Bool, true, false, not, Option, none, some, List, [], ◌∷◌, ltb, ◌==◌,
  if◌then◌else◌, Result, ok, err, ◌>>◌, throw_if, same_text, is_some, same_text, same_text,
}

pub record ThreadInfo : Type 0 where
  pub name : List ℕ
  pub path : List ℕ
  pub worker : Option ℕ
  pub run_count : Option ℕ
  pub error_count : Option ℕ
  pub last_started : Option ℕ
  pub last_stopped : Option ℕ
  pub last_duration : Option ℕ
  pub last_seen : Option ℕ

pub data ThreadError : Type 0 where
  thread_not_found already_running file_not_found worker_not_created : ThreadError

-- The messages of a worker, by what the handler does with them.
pub data ParentPortMessage : Type 0 where
  log init exit unknown : ParentPortMessage

pub data WorkerEvent : Type 0 where
  online exited message_error error : WorkerEvent
  message : ParentPortMessage → WorkerEvent

-- The table of the constructor has threads like this one.
unfoldable pub new_thread : List ℕ → List ℕ → ThreadInfo
new_thread name path = record {
  name = name;
  path = path;
  worker = none;
  run_count = none;
  error_count = none;
  last_started = none;
  last_stopped = none;
  last_duration = none;
  last_seen = none;
}

-- `value ?? other`.
abbrev pub or_else : Option ℕ → ℕ → ℕ
or_else none otherwise = otherwise
or_else (some value) otherwise = value

-- `(count ?? 0) + 1`.
abbrev pub one_more : Option ℕ → Option ℕ
one_more counted = some (or_else counted 0 + 1)

-- `Math.max(0, now - (lastStarted ?? now))`.
abbrev pub duration : ℕ → Option ℕ → ℕ
duration now started = now - or_else started now

-- `this.threads.find((t) => t.name === name)`.
unfoldable pub find_thread : List ℕ → List ThreadInfo → Option ThreadInfo
find_thread name [] = none
find_thread name (t ∷ threads) = if same_text t.name name then some t else find_thread name threads

-- The thread that find gives is changed.
unfoldable pub change_thread :
    (ThreadInfo → ThreadInfo) → List ℕ → List ThreadInfo → List ThreadInfo
change_thread change name [] = []
change_thread change name (t ∷ threads) =
    if same_text t.name name then change t ∷ threads else t ∷ change_thread change name threads

-- The thread with its new worker; if making one throws, it has no worker still, and its times are
-- cleared already.
unfoldable pub started : Option ℕ → ThreadInfo → ThreadInfo
started worker t = record t {
  last_started = none;
  last_stopped = none;
  last_duration = none;
  worker = worker;
}

-- The end of runThread: `new Worker` gives a worker, or throws.
abbrev pub created : Option ℕ → Result ThreadError (Unit {0})
created none = err worker_not_created
created (some worker) = ok tt

-- runThread after its checks: what it returns or throws, and the threads.
unfoldable pub run_checked :
    Option ℕ
    → List ℕ
    → List ThreadInfo
    → Result ThreadError (Unit {0})
    → Result ThreadError (Unit {0}) × List ThreadInfo
unfolding started change_thread
run_checked worker name threads (err e) = (err e, threads)
run_checked worker name threads (ok u) =
    (created worker, change_thread (started worker) name threads)

-- An error of runThread is answered by false.
unfoldable pub answer : Result ThreadError (Unit {0}) → Bool
answer (ok u) = true
answer (err e) = false

-- fs.existsSync, and the three places of a file by path.join.
module _ (exists : List ℕ → Bool) (current dist workers : List ℕ → List ℕ) where
  -- The first candidate that exists, or else the first.
  unfoldable pub first_existing : List (List ℕ) → List ℕ → List ℕ
  first_existing [] first = first
  first_existing (candidate ∷ candidates) first =
      if exists candidate then candidate else first_existing candidates first

  unfoldable pub resolve_path : List ℕ → List ℕ
  unfolding first_existing
  resolve_path file_name =
      first_existing (current file_name ∷ dist file_name ∷ workers file_name ∷ [])
        (current file_name)

  -- The checks of runThread on the thread that was found.
  unfoldable pub check_thread : Option ThreadInfo → Result ThreadError (Unit {0})
  unfolding resolve_path
  check_thread none = err thread_not_found
  check_thread (some t) = do
    throw_if (is_some t.worker) already_running
    throw_if (not (exists (resolve_path t.path))) file_not_found
    ok tt

  unfoldable pub run_thread :
      Option ℕ → List ℕ → List ThreadInfo → Result ThreadError (Unit {0}) × List ThreadInfo
  unfolding find_thread check_thread run_checked
  run_thread worker name threads =
      run_checked worker name threads (check_thread (find_thread name threads))

  unfoldable pub manager_run : Option ℕ → List ℕ → List ThreadInfo → Bool × List ThreadInfo
  unfolding run_thread answer
  manager_run worker name threads =
      let (result, next) = run_thread worker name threads in (answer result, next)

unfoldable pub is_worker : ℕ → Option ℕ → Bool
is_worker worker none = false
is_worker worker (some running) = running == worker

unfoldable pub on_exit : ℕ → ℕ → ThreadInfo → ThreadInfo
unfolding is_worker
on_exit now worker t =
    if is_worker worker t.worker
    then record t {
      last_seen = some now;
      last_stopped = some now;
      last_duration = some (duration now t.last_started);
      worker = none;
    }
    else t

unfoldable pub on_message : ℕ → ParentPortMessage → ThreadInfo → ThreadInfo
on_message now init t = record t {
  last_seen = some now;
  last_started = some now;
  run_count = one_more t.run_count;
}
on_message now exit t = record t {
  last_seen = some now;
  last_stopped = some now;
  last_duration = some (duration now t.last_started);
  worker = none;
}
on_message now _ t = record t { last_seen = some now }

-- The handlers that runThread sets on a worker.
unfoldable pub on_event : ℕ → ℕ → WorkerEvent → ThreadInfo → ThreadInfo
unfolding on_exit on_message
on_event now worker online t = t
on_event now worker exited t = on_exit now worker t
on_event now worker (message m) t = on_message now m t
on_event now worker message_error t = record t { error_count = one_more t.error_count }
on_event now worker error t = record t {
  error_count = one_more t.error_count;
  last_stopped = some now;
  last_duration = some (duration now t.last_started);
  worker = none;
  last_seen = some now;
}

-- The workers that the handler of the interval pings, and those it warns about.
unfoldable pub silent_workers : ℕ → ℕ → List ThreadInfo → List ℕ
silent_workers now limit [] = []
silent_workers now limit (t ∷ threads) =
    let rest = silent_workers now limit threads in
    elim t.worker [
      | none ↦ rest
      | some worker ↦ if ltb limit (now - or_else t.last_seen 0) then worker ∷ rest else rest
    ]

unfoldable pub interval_handler : ℕ → ℕ → List ThreadInfo → List ℕ × List ℕ
unfolding silent_workers
interval_handler now interval threads =
    (silent_workers now interval threads, silent_workers now (interval * 2) threads)
