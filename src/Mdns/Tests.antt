-- ===== src/Mdns/Tests.antt =====
-- The mDNS codec on concrete messages, and the theorems at inputs that meet their hypotheses.
use matterbridge.Base.{
  ℕ, ◌+◌, ◌≡◌, refl, ◌≢◌, ◌↔◌, true, List, [], ◌∷◌, ◌++◌, map, arith, length, All, ok, err, join,
  split, split, join,
}
use matterbridge.Mdns.Errors.{out_of_fuel}
use matterbridge.Mdns.Names.Carried.{IsName}
use matterbridge.Mdns.Records.Rdata.{send_ptr, send_txt}
use matterbridge.Mdns.Messages.{
  Query, Answer, query_class, send_query, is_mdns_query, is_mdns_response, send_response,
  decode_mdns_message, mdns_message,
}
use matterbridge.Mdns.Messages.Queries.{IsQuery, asked, decode-send_query}
use matterbridge.Mdns.Messages.Responses.{
  Announced, IsAnnounced, answers_of, seen, decode-send_response,
}
use matterbridge.Mdns.Messages.Total.{decode_mdns_message_total}
use matterbridge.Mdns.Names.{
  decode_dns_name, decode_labels, end_offset, pointer_target, encode_dns_name, encode_labels,
  encode_label, write_byte, text_length, utf8_bytes, utf8,
}
use matterbridge.Mdns.Names.RoundTrip.{IsAscii, decode-encode_dns_name}
use matterbridge.Mdns.Names.Decoding.{encode_label-length}

names : Unit {0}
unfolding decode_dns_name decode_labels end_offset pointer_target encode_dns_name encode_labels
    encode_label write_byte text_length utf8_bytes utf8 split join
names = tt

-- "a.bc"
abbrev short_name : List ℕ
short_name = 97 ∷ 46 ∷ 98 ∷ 99 ∷ []

short_name_labels : split b'.' short_name ≡ (97 ∷ []) ∷ (98 ∷ 99 ∷ []) ∷ []
unfolding names
short_name_labels = refl

decode-encode_dns_name_example :
    (bytes : List ℕ) × (encode_dns_name short_name ≡ ok bytes)
    × (decode_dns_name ((9 ∷ []) ++ (bytes ++ (7 ∷ []))) 1
        ≡ ok (record { name = short_name; new_offset = 1 + length bytes }))
unfolding split
decode-encode_dns_name_example =
    decode-encode_dns_name short_name (9 ∷ []) (7 ∷ [])
      (
        record { ascii = omega arith; not_empty = omega arith; short = omega arith },
        (record { ascii = omega arith; not_empty = omega arith; short = omega arith }, tt),
      )
      (omega arith)

-- "c" at 0, and at 3 the label "a" with a pointer to it.
abbrev compressed : List ℕ
compressed = 1 ∷ 99 ∷ 0 ∷ 1 ∷ 97 ∷ 192 ∷ 0 ∷ []

decode_compressed :
    decode_dns_name compressed 3 ≡ ok (record { name = 97 ∷ 46 ∷ 99 ∷ []; new_offset = 7 })
unfolding names
decode_compressed = refl

abbrev looping : List ℕ
looping = 0 ∷ 192 ∷ 1 ∷ []

-- "é": one code unit, two bytes.
encode_accent : encode_label (233 ∷ []) ≡ ok (1 ∷ 195 ∷ 169 ∷ [])
unfolding names
encode_accent = refl

encode_label-length_example :
    ((1 ∷ 195 ∷ 169 ∷ []) ≡ text_length (233 ∷ []) ∷ utf8_bytes (233 ∷ []))
    × ((text_length (233 ∷ []) ≡ length (utf8_bytes (233 ∷ []))) ↔ All IsAscii (233 ∷ []))
encode_label-length_example = encode_label-length (233 ∷ []) (1 ∷ 195 ∷ 169 ∷ []) encode_accent

short_name-IsName : IsName short_name
unfolding split
short_name-IsName = record {
  labels_fit = (
    record { ascii = omega arith; not_empty = omega arith; short = omega arith },
    (record { ascii = omega arith; not_empty = omega arith; short = omega arith }, tt),
  );
  few_labels = omega arith;
}

-- A question for the PTR records of "a.bc" that asks for a unicast response.
abbrev question : Query
question = record { name = short_name; type = 12; class = 1; unicast_response = true }

abbrev questions : List Query
questions = question ∷ []

question-IsQuery : IsQuery question
unfolding query_class
question-IsQuery = record {
  name_fits = short_name-IsName;
  type_fits = omega arith;
  class_fits = omega arith;
}

decode-send_query_example :
    (datagram : List ℕ) × (send_query questions ≡ ok datagram)
    × (is_mdns_query datagram ≡ true)
    × (decode_mdns_message datagram
        ≡ ok (mdns_message 0 0 (length questions) 0 0 0 (map asked questions) [] [] []))
decode-send_query_example = decode-send_query questions (question-IsQuery, tt) (omega arith)

-- "a.bc" points to "a.bc", and has the text "é".
abbrev announced : List Announced
announced =
    record { name = short_name; class = 1; ttl = 120; sent = send_ptr short_name }
    ∷ record { name = short_name; class = 0x8001; ttl = 4500; sent = send_txt ((233 ∷ []) ∷ []) }
    ∷ []

announced-IsAnnounced : All IsAnnounced announced
unfolding utf8_bytes utf8 split
announced-IsAnnounced = (
  record {
    name_fits = short_name-IsName;
    type_fits = omega arith;
    class_fits = omega arith;
    ttl_fits = omega arith;
    data_fits = short_name-IsName;
    length_fits = omega arith;
  },
  (
    record {
      name_fits = short_name-IsName;
      type_fits = omega arith;
      class_fits = omega arith;
      ttl_fits = omega arith;
      data_fits = (omega arith, tt);
      length_fits = omega arith;
    },
    tt,
  ),
)

decode-send_response_example :
    (answers : List Answer) × (datagram : List ℕ) × (answers_of announced ≡ ok answers)
    × (send_response answers ≡ ok datagram)
    × (is_mdns_response datagram ≡ true)
    × (decode_mdns_message datagram
        ≡ ok (mdns_message 0 0x8400 0 (length announced) 0 0 [] (map seen announced) [] []))
decode-send_response_example =
    decode-send_response announced announced-IsAnnounced (omega arith) (omega arith)

decode_mdns_message_total_example : decode_mdns_message compressed ≢ err out_of_fuel
decode_mdns_message_total_example = decode_mdns_message_total compressed
