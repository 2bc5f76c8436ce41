-- ===== src/Broadcast/Exchange.antt =====
-- broadcastServer.ts: a request that one server fetches and another answers, and what a fetch waits
-- for.
use matterbridge.Base.{
  ℕ, ◌≡◌, refl, ap, subst, ◌∙◌, ◌⊎◌, inl, inr, true, false, Option, none, some, List, [], ◌∷◌, ◌++◌,
  map, ==_refl, Bool-cases, All, same_text_refl,
}
use matterbridge.Broadcast.{
  no_error, WorkerMessage, BroadcastServer, is_text, has_string, is_defined, or_default, same_id,
  FetchEvent, emitted, timed_out, Settled, resolved, rejected_timeout, rejected_closed, receives,
  has_envelope, is_worker_request, is_worker_response, is_worker_response_of_type, stamped, request,
  answered, respond, settle, answers_to, awaited, fetch,
}

or_default-some : (o : Option ℕ) (d : ℕ) → (n : ℕ) × (or_default o d ≡ some n)
unfolding or_default
or_default-some none d = (d, refl)
or_default-some (some n) d = (n, refl)

module _ {R : Type 0} where
  -- The messages that arrive and do not answer a request.
  abbrev pub IsUnrelated : WorkerMessage R → FetchEvent R → Type 0
  IsUnrelated sent (emitted m) = answers_to sent m ≡ false
  IsUnrelated sent timed_out = true ≡ false

  awaited-append :
      (sent : WorkerMessage R) (before after : List (FetchEvent R))
      → All (IsUnrelated sent) before
      → awaited sent (before ++ after) ≡ awaited sent after
  unfolding awaited
  awaited-append sent [] after h = refl
  awaited-append sent (emitted m ∷ before) after h = rw h.0 (awaited-append sent before after h.1)
  awaited-append sent (timed_out ∷ before) after h = cc

  -- The message that a caller passes to fetch: a type and a destination, and maybe an id and a time.
  abbrev pub asking :
      (type dst : List ℕ) → (src : Option (List ℕ)) → (id time : Option ℕ) → WorkerMessage R
  asking type dst src id time = record {
    type = some type;
    src = src;
    dst = some dst;
    id = id;
    timestamp = time;
    elapsed = none;
    result = none;
    error = no_error;
  }

  -- A request with its id, its time and its sender.
  abbrev sent_request : (type src dst : List ℕ) → (id time : ℕ) → WorkerMessage R
  sent_request type src dst id time = asking type dst (some src) (some id) (some time)

  stamped_lem :
      (a : BroadcastServer) (unique now : ℕ) (type dst : List ℕ) (src : Option (List ℕ))
      (id time : Option ℕ)
      → (i t : ℕ) × (stamped a unique now (asking type dst src id time)
          ≡ sent_request type a.name dst i t)
  unfolding stamped
  stamped_lem a unique now type dst src id time =
      let (i, e) = or_default-some id unique in
      let (t, k) = or_default-some time now in (i, t, rw (e, k) refl)

  -- The response to a request with a result.
  abbrev answer_of : (type src dst : List ℕ) → (id time now : ℕ) → R → WorkerMessage R
  answer_of type src dst id time now r = record {
    type = some type;
    src = some dst;
    dst = some src;
    id = some id;
    timestamp = some time;
    elapsed = some (now, time);
    result = some r;
    error = no_error;
  }

  respond_lem :
      (b : BroadcastServer) (now : ℕ) (type src : List ℕ) (id time : ℕ) (r : R)
      → b.is_closed ≡ false
      → respond b now (record (sent_request type src b.name id time) { result = some r })
        ≡ some (answer_of type src b.name id time now r)
  unfolding respond answered is_worker_response is_text or_default has_envelope has_string
  respond_lem b now type src id time r open' = rw (open', same_text_refl b.name) refl

  answers_to_lem :
      (type src dst : List ℕ) (id time now : ℕ) (r : R)
      → answers_to (sent_request type src dst id time) (answer_of type src dst id time now r) ≡ true
  unfolding answers_to is_worker_response_of_type is_worker_response is_text same_id has_envelope
      has_string
  answers_to_lem type src dst id time now r = rw (same_text_refl type, ==_refl id) refl

  answer_of_lem :
      (a : BroadcastServer) (type dst : List ℕ) (id time now : ℕ) (r : R)
      → receives a (answer_of type a.name dst id time now r) ≡ true
  unfolding receives is_text
  answer_of_lem a type dst id time now r = rw (same_text_refl a.name) refl

  request_lem :
      (a : BroadcastServer) (unique now : ℕ) (m : WorkerMessage R) {sent : WorkerMessage R}
      → a.is_closed ≡ false
      → stamped a unique now m ≡ sent
      → is_worker_request sent ≡ true
      → request a unique now m ≡ some sent
  unfolding request
  request_lem a unique now m open' e h = rw (open', ap is_worker_request e ∙ h, e) refl

  fetch_lem :
      (a : BroadcastServer) (unique now : ℕ) (m : WorkerMessage R) {sent : WorkerMessage R}
      (answer : WorkerMessage R) (before after : List (FetchEvent R))
      → a.is_closed ≡ false
      → stamped a unique now m ≡ sent
      → All (IsUnrelated sent) before
      → answers_to sent answer ≡ true
      → fetch a unique now m (before ++ emitted answer ∷ after) ≡ some (settle answer)
  unfolding fetch
  fetch_lem a unique now m {sent} answer before after open' e h k =
      rw (open', e, awaited-append sent before (emitted answer ∷ after) h)
        (first sent answer after k)
    where
      first :
          (s p : WorkerMessage R) (rest : List (FetchEvent R))
          → answers_to s p ≡ true
          → awaited s (emitted p ∷ rest) ≡ some (settle p)
      first s p rest j = rw j refl

sent_request_lem :
    (R : Type 0) (b : BroadcastServer) (type src : List ℕ) (id time : ℕ)
    → (is_worker_request (sent_request {R = R} type src b.name id time) ≡ true)
      × (receives b (sent_request {R = R} type src b.name id time) ≡ true)
unfolding is_worker_request has_envelope is_defined receives is_text
sent_request_lem R b type src id time = (refl, rw (same_text_refl b.name) refl)

-- A server fetches a message from another one, both open: it sends a request, which the other
-- receives as a request; a result that the other responds with is sent as a message that the first
-- receives; and once that message arrives, after any messages that answer no such request and before
-- the timeout, the fetch resolves with it, and it carries that result.
pub fetch-respond :
    {R : Type 0} (a b : BroadcastServer) (type : List ℕ) (src : Option (List ℕ))
    (id time : Option ℕ) (unique now later : ℕ) (r : R) (before after : List (FetchEvent R))
    → a.is_closed ≡ false
    → b.is_closed ≡ false
    → All (IsUnrelated (stamped a unique now (asking type b.name src id time))) before
    → (sent answer : WorkerMessage R) × (request a unique now (asking type b.name src id time)
        ≡ some sent)
      × (is_worker_request sent ≡ true)
      × (receives b sent ≡ true)
      × (respond b later (record sent { result = some r }) ≡ some answer)
      × (receives a answer ≡ true)
      × (fetch a unique now (asking type b.name src id time) (before ++ emitted answer ∷ after)
          ≡ some (resolved answer))
      × (answer.result ≡ some r)
unfolding settle
fetch-respond {R} a b type src id time unique now later r before after open_a open_b h =
    let (i, t, e) = stamped_lem {R = R} a unique now type b.name src id time in
    let (is_request, received) = sent_request_lem R b type a.name i t in
    let answer = answer_of type a.name b.name i t later r in
    (
      sent_request type a.name b.name i t,
      answer,
      request_lem a unique now (asking type b.name src id time) open_a e is_request,
      is_request,
      received,
      respond_lem b later type a.name i t r open_b,
      answer_of_lem a type b.name i t later r,
      fetch_lem a unique now (asking type b.name src id time) answer before after open_a e
          (subst (λ s. All (IsUnrelated s) before) e h)
          (answers_to_lem type a.name b.name i t later r),
      refl,
    )

-- How the fetch of a sent request settles over messages that arrive before its timer fires: by the
-- first of them that answers it, or by the timer if none does.
abbrev pub SettlesAs :
    {R : Type 0} → WorkerMessage R → List (WorkerMessage R) → Option (Settled R) → Type 0
SettlesAs sent [] outcome = outcome ≡ some rejected_timeout
SettlesAs sent (m ∷ messages) outcome =
    ((answers_to sent m ≡ true) × (outcome ≡ some (settle m)))
    ⊎ ((answers_to sent m ≡ false) × SettlesAs sent messages outcome)

awaited-SettlesAs :
    {R : Type 0} (sent : WorkerMessage R) (messages : List (WorkerMessage R))
    (after : List (FetchEvent R))
    → SettlesAs sent messages (awaited sent (map emitted messages ++ timed_out ∷ after))
unfolding awaited
awaited-SettlesAs sent [] after = refl
awaited-SettlesAs sent (m ∷ messages) after = elim (Bool-cases (answers_to sent m)) [
  | inl e ↦ inl (e, rw e refl)
  | inr e ↦ inr (e, rw e (awaited-SettlesAs sent messages after))
]

-- Every fetch settles. On a closed server it is rejected at once, before any message or timer; on an
-- open one it settles by the first message that answers the request as it was stamped, or else is
-- rejected when the timer fires, whatever other messages arrive before and after.
pub fetch-settles :
    {R : Type 0} (a : BroadcastServer) (unique now : ℕ) (m : WorkerMessage R)
    (messages : List (WorkerMessage R)) (after : List (FetchEvent R))
    → ((a.is_closed ≡ true) × (fetch a unique now m [] ≡ some rejected_closed))
      ⊎ ((a.is_closed ≡ false)
          × SettlesAs
              (stamped a unique now m)
              messages
              (fetch a unique now m (map emitted messages ++ timed_out ∷ after)))
unfolding fetch
fetch-settles a unique now m messages after = elim (Bool-cases a.is_closed) [
  | inl e ↦ inl (e, rw e refl)
  | inr e ↦ inr (e, rw e (awaited-SettlesAs (stamped a unique now m) messages after))
]
