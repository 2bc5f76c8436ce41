-- ===== src/Mdns/Handler.antt =====
-- mdns.ts: Mdns.onMessage, which keeps the last query and the last response of every address. The
-- filters of the names only choose what is logged, and are left out like the logs.
pub mod History
pub mod Tests
use matterbridge.Base.{
  ℕ, Bool, true, false, ◌&&◌, ◌||◌, Option, none, some, List, [], ◌∷◌, ltb, ◌==◌, if◌then◌else◌,
  length, get_elem?, ok, err, includes, map_set, same_text, includes,
}
use matterbridge.Mdns.Errors.{MdnsError}
use matterbridge.Mdns.Records.{RecordData, ptr, MdnsRecord, type_ptr, type_txt}
use matterbridge.Mdns.Messages.{MdnsMessage, decode_mdns_message}

-- dgram.RemoteInfo.
pub record RemoteInfo : Type 0 where
  pub remote_address : List ℕ
  pub port : ℕ

pub record DeviceQuery : Type 0 where
  pub rinfo : RemoteInfo
  pub query : MdnsMessage

pub record DeviceResponse : Type 0 where
  pub rinfo : RemoteInfo
  pub response : MdnsMessage
  pub data_ptr : Option (List ℕ)

pub record Devices : Type 0 where
  pub device_queries : List (List ℕ × DeviceQuery)
  pub device_responses : List (List ℕ × DeviceResponse)
  pub ip_filters : List (List ℕ)

-- What a call of onMessage did: the branch that it took.
pub data Outcome : Type 0 where
  ignored queried responded : Outcome
  failed : MdnsError → Outcome

-- "_shelly._tcp.local" and "_http._tcp.local".
abbrev pub shelly_name : List ℕ
shelly_name =
    95 ∷ 115 ∷ 104 ∷ 101 ∷ 108 ∷ 108 ∷ 121 ∷ 46 ∷ 95 ∷ 116 ∷ 99 ∷ 112 ∷ 46 ∷ 108 ∷ 111 ∷ 99 ∷ 97
    ∷ 108 ∷ []

abbrev pub http_name : List ℕ
http_name =
    95 ∷ 104 ∷ 116 ∷ 116 ∷ 112 ∷ 46 ∷ 95 ∷ 116 ∷ 99 ∷ 112 ∷ 46 ∷ 108 ∷ 111 ∷ 99 ∷ 97 ∷ 108 ∷ []

unfoldable pub find : (MdnsRecord → Bool) → List MdnsRecord → Option MdnsRecord
find test [] = none
find test (r ∷ rs) = if test r then some r else find test rs

-- `a || b` on records, whose objects are true.
abbrev or_else : Option MdnsRecord → Option MdnsRecord → Option MdnsRecord
or_else none b = b
or_else (some a) b = some a

-- The record that the four searches prefer.
unfoldable pub preferred : List MdnsRecord → Option MdnsRecord
unfolding find
preferred answers =
    or_else (find (λ r. same_text r.name shelly_name && r.type == type_ptr) answers) (
      or_else (find (λ r. same_text r.name http_name && r.type == type_ptr) answers)
        (or_else (find (λ r. r.type == type_ptr) answers) (find (λ r. r.type == type_txt) answers)))

-- `a || result.answers` as a condition: an array is true, also when it is empty.
unfoldable pub is_found : Option MdnsRecord → List MdnsRecord → Bool
is_found (some r) answers = true
is_found none answers = true

-- `... || result.answers ? result.answers[0] : undefined`, as its precedence groups it.
unfoldable pub chosen : List MdnsRecord → Option MdnsRecord
chosen answers =
    let first = get_elem? answers 0 in if is_found (preferred answers) answers then first else none

-- The data of a PTR record is the name it points to, which the decoder gives every PTR record.
unfoldable pub record_text : MdnsRecord → List ℕ
record_text r = elim r.rdata [ ptr target ↦ target | other ↦ r.name ]

unfoldable pub data_ptr_of : Option MdnsRecord → Option (List ℕ)
data_ptr_of none = none
data_ptr_of (some r) = some (if r.type == type_ptr then record_text r else r.name)

unfoldable pub matches_ip : List (List ℕ) → List ℕ → Bool
matches_ip [] address = false
matches_ip (filter ∷ filters) address = includes filter address || matches_ip filters address

unfoldable pub is_accepted : List (List ℕ) → List ℕ → Bool
is_accepted filters address = if ltb 0 (length filters) then matches_ip filters address else true

-- The branch for a decoded message.
unfoldable pub store_message : Devices → RemoteInfo → MdnsMessage → Devices × Outcome
store_message s from result =
    if result.qr == 0
    then (
      record s {
        device_queries =
            map_set from.remote_address (record { rinfo = from; query = result }) s.device_queries;
      },
      queried,
    )
    else (
      record s {
        device_responses =
            map_set from.remote_address
              (record {
                rinfo = from;
                response = result;
                data_ptr = data_ptr_of (chosen result.answers);
              })
              s.device_responses;
      },
      responded,
    )

unfoldable pub on_message : Devices → List ℕ → RemoteInfo → Devices × Outcome
on_message s msg from =
    if is_accepted s.ip_filters from.remote_address
    then elim (decode_mdns_message msg) [
      | ok result ↦ store_message s from result
      | err e ↦ (s, failed e)
    ]
    else (s, ignored)
