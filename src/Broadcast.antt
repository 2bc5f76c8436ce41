-- ===== src/Broadcast.antt =====
-- packages/thread/src/broadcastServer.ts: the messages between the threads, their guards, and the
-- request, the response and the fetch of class BroadcastServer. Clock and random ids are arguments;
-- posting is the message that a call hands to the BroadcastChannel, if it hands one.
pub mod Exchange
pub mod Tests
use matterbridge.Base.{
  ℕ, Bool, true, false, ◌&&◌, ◌||◌, not, Option, none, some, List, [], ◌∷◌, ◌==◌, if◌then◌else◌,
  same_text, is_some,
}

-- The error of a message: undefined, a string, or another value.
pub data ErrorField : Type 0 where
  no_error other_value : ErrorField
  error_text : List ℕ → ErrorField

-- A message as the guards see it: a field is none if it is undefined or not of its type; `R` is the
-- type of the results.
pub record WorkerMessage (R : Type 0) : Type 0 where
  pub type : Option (List ℕ)
  pub src : Option (List ℕ)
  pub dst : Option (List ℕ)
  pub id : Option ℕ
  pub timestamp : Option ℕ
  pub elapsed : Option (ℕ × ℕ)
  pub result : Option R
  pub error : ErrorField

pub record BroadcastServer : Type 0 where
  pub name : List ℕ
  pub is_closed : Bool

-- "all".
abbrev pub all_name : List ℕ
all_name = 97 ∷ 108 ∷ 108 ∷ []

unfoldable pub close : BroadcastServer → BroadcastServer
close s = record s { is_closed = true }

-- `undefined === text` is false.
unfoldable pub is_text : Option (List ℕ) → List ℕ → Bool
is_text none t = false
is_text (some s) t = same_text s t

unfoldable pub has_string : ErrorField → Bool
has_string no_error = false
has_string other_value = false
has_string (error_text t) = true

unfoldable pub is_defined : ErrorField → Bool
is_defined no_error = false
is_defined other_value = true
is_defined (error_text t) = true

-- `a ?? b`.
unfoldable pub or_default : Option ℕ → ℕ → Option ℕ
or_default none d = some d
or_default (some a) d = some a

unfoldable pub same_id : Option ℕ → Option ℕ → Bool
same_id none none = true
same_id none (some j) = false
same_id (some i) none = false
same_id (some i) (some j) = i == j

-- What a fetch waits for: the next message of its server, or the timeout.
pub data FetchEvent (R : Type 0) : Type 0 where
  emitted : WorkerMessage R → FetchEvent R
  timed_out : FetchEvent R

pub data Settled (R : Type 0) : Type 0 where
  resolved : WorkerMessage R → Settled R
  rejected_error : List ℕ → Settled R
  rejected_malformed rejected_timeout rejected_closed : Settled R

module _ {R : Type 0} where
  -- broadcastMessageHandler: whether a message is emitted.
  unfoldable pub receives : BroadcastServer → WorkerMessage R → Bool
  unfolding is_text
  receives s m = is_text m.dst s.name || is_text m.dst all_name

  -- The fields that both guards want.
  unfoldable pub has_envelope : WorkerMessage R → Bool
  has_envelope m =
      is_some m.type && is_some m.src && is_some m.dst && is_some m.id && is_some m.timestamp

  unfoldable pub is_worker_request : WorkerMessage R → Bool
  unfolding has_envelope is_defined
  is_worker_request m = has_envelope m && not (is_some m.result) && not (is_defined m.error)

  unfoldable pub is_worker_response : WorkerMessage R → Bool
  unfolding has_envelope has_string
  is_worker_response m =
      has_envelope m && (if has_string m.error then not (is_some m.result) else is_some m.result)

  unfoldable pub is_worker_response_of_type : WorkerMessage R → Option (List ℕ) → Bool
  unfolding is_worker_response is_text
  is_worker_response_of_type m none = false
  is_worker_response_of_type m (some type) = is_worker_response m && is_text m.type type

  -- The message that broadcast, request and fetch send: with an id, a time and the sender.
  unfoldable pub stamped : BroadcastServer → ℕ → ℕ → WorkerMessage R → WorkerMessage R
  unfolding or_default
  stamped s unique now m = record m {
    id = or_default m.id unique;
    timestamp = or_default m.timestamp now;
    src = some s.name;
  }

  unfoldable pub broadcast : BroadcastServer → ℕ → ℕ → WorkerMessage R → Option (WorkerMessage R)
  unfolding stamped
  broadcast s unique now m = if s.is_closed then none else some (stamped s unique now m)

  unfoldable pub request : BroadcastServer → ℕ → ℕ → WorkerMessage R → Option (WorkerMessage R)
  unfolding stamped is_worker_request
  request s unique now m =
      if s.is_closed
      then none
      else if is_worker_request (stamped s unique now m)
      then some (stamped s unique now m)
      else none

  -- The elapsed time is kept as the two times whose difference it is.
  unfoldable pub answered : BroadcastServer → ℕ → WorkerMessage R → WorkerMessage R
  unfolding or_default is_text
  answered s now m = record m {
    elapsed = elim m.timestamp [ none ↦ m.elapsed | some sent ↦ some (now, sent) ];
    timestamp = or_default m.timestamp now;
    dst = if is_text m.dst s.name then m.src else m.dst;
    src = some s.name;
  }

  unfoldable pub respond : BroadcastServer → ℕ → WorkerMessage R → Option (WorkerMessage R)
  unfolding answered is_worker_response
  respond s now m =
      if s.is_closed
      then none
      else if is_worker_response (answered s now m)
      then some (answered s now m)
      else none

  -- The responseHandler, on a message that answers the request.
  unfoldable pub settle : WorkerMessage R → Settled R
  settle m = elim m.error [
    | error_text t ↦ rejected_error t
    | no_error ↦ elim m.result [ some r ↦ resolved m | none ↦ rejected_malformed ]
    | other_value ↦ elim m.result [ some r ↦ resolved m | none ↦ rejected_malformed ]
  ]

  unfoldable pub answers_to : WorkerMessage R → WorkerMessage R → Bool
  unfolding is_worker_response_of_type same_id
  answers_to sent m = is_worker_response_of_type m sent.type && same_id m.id sent.id

  -- The fetch of a stamped request over the events that follow: none while it is pending.
  unfoldable pub awaited : WorkerMessage R → List (FetchEvent R) → Option (Settled R)
  unfolding answers_to settle
  awaited sent [] = none
  awaited sent (timed_out ∷ events) = some rejected_timeout
  awaited sent (emitted m ∷ events) =
      if answers_to sent m then some (settle m) else awaited sent events

  unfoldable pub fetch :
      BroadcastServer → ℕ → ℕ → WorkerMessage R → List (FetchEvent R) → Option (Settled R)
  unfolding awaited stamped
  fetch s unique now m events =
      if s.is_closed then some rejected_closed else awaited (stamped s unique now m) events
