-- ===== src/Mdns/Handler/History.antt =====
-- mdns.ts: the queries and the responses that the handler keeps, over a sequence of datagrams.
use matterbridge.Base.{
  ℕ, ◌≡◌, refl, ◌∙◌, inl, inr, true, false, ◌&&◌, not, Option, none, some, List, [], ◌∷◌, map, ◌==◌,
  if◌then◌else◌, Bool-cases, Option-cases, get_elem?, All, Result, ok, err, Result-cases,
  HasDistinctKeys, map_get, map_get-map_set, map_set-HasDistinctKeys, same_text, map_set-All,
}
use matterbridge.Mdns.Records.{MdnsRecord}
use matterbridge.Mdns.Messages.{MdnsMessage, decode_mdns_message}
use matterbridge.Mdns.Handler.{
  RemoteInfo, DeviceQuery, DeviceResponse, Devices, preferred, chosen, is_found, data_ptr_of,
  is_accepted, store_message, on_message,
}

abbrev IsQueryOf : List ℕ × DeviceQuery → Type 0
IsQueryOf e = (e.1.rinfo.remote_address ≡ e.0) × ((e.1.query.qr == 0) ≡ true)

abbrev IsResponseOf : List ℕ × DeviceResponse → Type 0
IsResponseOf e =
    (e.1.rinfo.remote_address ≡ e.0)
    × ((e.1.response.qr == 0) ≡ false)
    × (e.1.data_ptr ≡ data_ptr_of (chosen e.1.response.answers))

-- Queries stand in one Map and responses in the other, each under the address it came from, and no
-- address stands twice in a Map.
pub record IsKept (s : Devices) : Type 0 where
  pub queries : All IsQueryOf s.device_queries
  pub responses : All IsResponseOf s.device_responses
  pub distinct_queries : HasDistinctKeys s.device_queries
  pub distinct_responses : HasDistinctKeys s.device_responses

store_message-IsKept :
    (s : Devices) (from : RemoteInfo) (result : MdnsMessage)
    → IsKept s
    → IsKept (store_message s from result).0
unfolding store_message
store_message-IsKept s from result k = elim (Bool-cases (result.qr == 0)) [
  | inl e ↦ rw e (record {
    queries = map_set-All IsQueryOf from.remote_address _ s.device_queries (refl, e) k.queries;
    responses = k.responses;
    distinct_queries =
        map_set-HasDistinctKeys from.remote_address _ s.device_queries k.distinct_queries;
    distinct_responses = k.distinct_responses;
  })
  | inr e ↦ rw e (record {
    queries = k.queries;
    responses =
        map_set-All IsResponseOf from.remote_address _ s.device_responses (refl, e, refl)
          k.responses;
    distinct_queries = k.distinct_queries;
    distinct_responses =
        map_set-HasDistinctKeys from.remote_address _ s.device_responses k.distinct_responses;
  })
]

-- Whatever datagram arrives, the handler keeps the queries and the responses apart, each under the
-- address it came from.
pub on_message-IsKept :
    (s : Devices) (msg : List ℕ) (from : RemoteInfo) → IsKept s → IsKept (on_message s msg from).0
unfolding on_message
on_message-IsKept s msg from k = elim (Bool-cases (is_accepted s.ip_filters from.remote_address)) [
  | inl e ↦ elim (Result-cases (decode_mdns_message msg)) [
    | inl (result, d) ↦ rw (e, d) (store_message-IsKept s from result k)
    | inr (x, d) ↦ rw (e, d) k
  ]
  | inr e ↦ rw e k
]

abbrev pub Datagram : Type 0
Datagram = List ℕ × RemoteInfo

-- The handler on one datagram after the other.
abbrev pub run : Devices → List Datagram → Devices
run s [] = s
run s (d ∷ ds) = run (on_message s d.0 d.1).0 ds

-- The message of a datagram that passes the address filters and decodes.
abbrev message_of : List (List ℕ) → Datagram → Result (Unit {0}) MdnsMessage
message_of filters d =
    if is_accepted filters d.1.remote_address
    then elim (decode_mdns_message d.0) [ ok result ↦ ok result | err e ↦ err tt ]
    else err tt

-- The query, and the response, that a datagram brings from an address.
abbrev query_in : List ℕ → RemoteInfo → Result (Unit {0}) MdnsMessage → Option DeviceQuery
query_in address from (err e) = none
query_in address from (ok result) =
    if result.qr == 0 && same_text from.remote_address address
    then some (record { rinfo = from; query = result })
    else none

abbrev response_in : List ℕ → RemoteInfo → Result (Unit {0}) MdnsMessage → Option DeviceResponse
response_in address from (err e) = none
response_in address from (ok result) =
    if not (result.qr == 0) && same_text from.remote_address address
    then some
        (record { rinfo = from; response = result; data_ptr = data_ptr_of (chosen result.answers) })
    else none

abbrev or_before {ℓ} : {A : Type ℓ} → Option A → Option A → Option A
or_before (some a) b = some a
or_before none b = b

-- The last value of a list of optional values, or else a value from before.
abbrev pub last_some {ℓ} : {A : Type ℓ} → List (Option A) → Option A → Option A
last_some [] before = before
last_some (o ∷ os) before = last_some os (or_before o before)

abbrev pub heard_query : List (List ℕ) → List ℕ → Datagram → Option DeviceQuery
heard_query filters address d = query_in address d.1 (message_of filters d)

abbrev pub heard_response : List (List ℕ) → List ℕ → Datagram → Option DeviceResponse
heard_response filters address d = response_in address d.1 (message_of filters d)

store_message_lem :
    (s : Devices) (from : RemoteInfo) (result : MdnsMessage) (a : List ℕ)
    → (map_get a (store_message s from result).0.device_queries
        ≡ or_before (query_in a from (ok result)) (map_get a s.device_queries))
      × (map_get a (store_message s from result).0.device_responses
          ≡ or_before (response_in a from (ok result)) (map_get a s.device_responses))
      × ((store_message s from result).0.ip_filters ≡ s.ip_filters)
unfolding store_message
store_message_lem s from result a = elim (Bool-cases (result.qr == 0)) [
  | inl e ↦ elim (Bool-cases (same_text from.remote_address a)) [
    | inl t ↦
        rw (e, t) (map_get-map_set from.remote_address a _ s.device_queries ∙ rw t refl, refl, refl)
    | inr t ↦
        rw (e, t) (map_get-map_set from.remote_address a _ s.device_queries ∙ rw t refl, refl, refl)
  ]
  | inr e ↦ elim (Bool-cases (same_text from.remote_address a)) [
    | inl t ↦
        rw (e, t)
          (refl, map_get-map_set from.remote_address a _ s.device_responses ∙ rw t refl, refl)
    | inr t ↦
        rw (e, t)
          (refl, map_get-map_set from.remote_address a _ s.device_responses ∙ rw t refl, refl)
  ]
]

on_message_lem :
    (s : Devices) (d : Datagram) (a : List ℕ)
    → (map_get a (on_message s d.0 d.1).0.device_queries
        ≡ or_before (heard_query s.ip_filters a d) (map_get a s.device_queries))
      × (map_get a (on_message s d.0 d.1).0.device_responses
          ≡ or_before (heard_response s.ip_filters a d) (map_get a s.device_responses))
      × ((on_message s d.0 d.1).0.ip_filters ≡ s.ip_filters)
unfolding on_message
on_message_lem s (msg, from) a = elim (Bool-cases (is_accepted s.ip_filters from.remote_address)) [
  | inl e ↦ elim (Result-cases (decode_mdns_message msg)) [
    | inl (result, d) ↦ rw (e, d) (store_message_lem s from result a)
    | inr (x, d) ↦ rw (e, d) (refl, refl, refl)
  ]
  | inr e ↦ rw e (refl, refl, refl)
]

-- After any datagrams, what the handler keeps for an address is the last query and the last
-- response that came from this address in a datagram that passed the address filters and decoded,
-- or what it kept before if none came.
pub run-latest :
    (s : Devices) (ds : List Datagram) (a : List ℕ)
    → (map_get a (run s ds).device_queries
        ≡ last_some (map (heard_query s.ip_filters a) ds) (map_get a s.device_queries))
      × (map_get a (run s ds).device_responses
          ≡ last_some (map (heard_response s.ip_filters a) ds) (map_get a s.device_responses))
run-latest s [] a = (refl, refl)
run-latest s (d ∷ ds) a =
    let (q, r, f) = on_message_lem s d a in
    let rest = run-latest (on_message s d.0 d.1).0 ds a in
    (rest.0 ∙ (rw (f, q) refl), rest.1 ∙ (rw (f, r) refl))

-- The record that the handler takes the name of a response from is its first answer, whatever the
-- four searches found, and none only if there is no answer.
pub chosen_first : (answers : List MdnsRecord) → chosen answers ≡ get_elem? answers 0
unfolding chosen is_found
chosen_first answers = elim (Option-cases (preferred answers)) [
  | inl e ↦ rw e refl
  | inr (r, e) ↦ rw e refl
]
