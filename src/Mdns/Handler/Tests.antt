-- ===== src/Mdns/Handler/Tests.antt =====
-- The mDNS handler on concrete datagrams, and its theorems there.
use matterbridge.Base.{ℕ, ◌≡◌, refl, some, List, [], ◌∷◌, map, map_get, same_text, same_text}
use matterbridge.Mdns.Records.{MdnsRecord, address, ptr}
use matterbridge.Mdns.Handler.{RemoteInfo, Devices, shelly_name, find, preferred, chosen, is_found}
use matterbridge.Mdns.Handler.History.{
  IsKept, Datagram, run, run-latest, heard_query, heard_response, last_some,
}

names : Unit {0}
unfolding find preferred chosen is_found same_text
names = tt

-- A response with the answers A and PTR of a Shelly device: the search prefers the PTR record, and
-- the handler takes the A record.
abbrev address_record : MdnsRecord
address_record = record {
  name = 97 ∷ [];
  type = 1;
  class = 1;
  ttl = 120;
  rdata = address (10 ∷ 0 ∷ 0 ∷ 1 ∷ []);
}

abbrev shelly_record : MdnsRecord
shelly_record = record {
  name = shelly_name;
  type = 12;
  class = 1;
  ttl = 120;
  rdata = ptr (98 ∷ []);
}

abbrev answers : List MdnsRecord
answers = address_record ∷ shelly_record ∷ []

preferred_shelly : preferred answers ≡ some shelly_record
unfolding names
preferred_shelly = refl

abbrev sender : RemoteInfo
sender = record { remote_address = 49 ∷ []; port = 5353 }

abbrev start : Devices
start = record { device_queries = []; device_responses = []; ip_filters = [] }

start-IsKept : IsKept start
start-IsKept = record {
  queries = tt;
  responses = tt;
  distinct_queries = tt;
  distinct_responses = tt;
}

-- The header of a query, and the header of a response, without questions and records.
abbrev query_header : List ℕ
query_header = 0 ∷ 0 ∷ 0 ∷ 0 ∷ 0 ∷ 0 ∷ 0 ∷ 0 ∷ 0 ∷ 0 ∷ 0 ∷ 0 ∷ []

abbrev response_header : List ℕ
response_header = 0 ∷ 0 ∷ 132 ∷ 0 ∷ 0 ∷ 0 ∷ 0 ∷ 0 ∷ 0 ∷ 0 ∷ 0 ∷ 0 ∷ []

abbrev datagrams : List Datagram
datagrams = (query_header, sender) ∷ (response_header, sender) ∷ (1 ∷ [], sender) ∷ []

run-latest_example :
    (map_get (49 ∷ []) (run start datagrams).device_queries
      ≡ last_some
          (map (heard_query [] (49 ∷ [])) datagrams)
          (map_get (49 ∷ []) start.device_queries))
    × (map_get (49 ∷ []) (run start datagrams).device_responses
        ≡ last_some
            (map (heard_response [] (49 ∷ [])) datagrams)
            (map_get (49 ∷ []) start.device_responses))
run-latest_example = run-latest start datagrams (49 ∷ [])
