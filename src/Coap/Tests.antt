-- ===== src/Coap/Tests.antt =====
-- The codec on concrete messages, and the theorems at inputs that meet their hypotheses.
use matterbridge.Base.{ℕ, ◌≤◌, ◌<◌, ◌≡◌, refl, ◌≢◌, ◌⊎◌, none, some, List, [], ◌∷◌, arith, ok, err}
use matterbridge.Coap.{
  CoapOption, CoapMessage, too_short, reserved_delta, token_too_long, out_of_fuel,
  encode_coap_message, decode_coap_message, decode_token, decode_options, decode_option,
  decode_extended, encode_options, encode_option, encode_extended, encode_payload, sort_options,
  insert_option, write_word,
}
use matterbridge.Coap.Options.{Encodable}
use matterbridge.Coap.RoundTrip.{IsEncodable, received, decode-encode_coap_message}
use matterbridge.Coap.Decoding.{decode_coap_message_total}
use matterbridge.Coap.Recoding.{encode-decode_coap_message}

codec : Unit {0}
unfolding decode_coap_message decode_token decode_options decode_option decode_extended
    encode_coap_message encode_options encode_option encode_extended encode_payload sort_options
    insert_option write_word
codec = tt

abbrev devid : CoapOption
devid = record { number = 3332; value = 1 ∷ 2 ∷ [] }

abbrev uri_path : CoapOption
uri_path = record { number = 11; value = 99 ∷ 105 ∷ 116 ∷ [] }

abbrev status : CoapMessage
status = record {
  version = 1;
  type = 1;
  token_length = 0;
  code = 30;
  message_id = 513;
  token = 7 ∷ 8 ∷ [];
  options = devid ∷ uri_path ∷ [];
  payload = some (123 ∷ 125 ∷ []);
}

abbrev datagram : List ℕ
datagram =
    0x52 ∷ 30 ∷ 2 ∷ 1 ∷ 7 ∷ 8 ∷ 0xb3 ∷ 99 ∷ 105 ∷ 116 ∷ 0xe2 ∷ 11 ∷ 0xec ∷ 1 ∷ 2 ∷ 0xff ∷ 123 ∷ 125
    ∷ []

encode_status : encode_coap_message status ≡ ok datagram
unfolding codec
encode_status = refl

decode_status : decode_coap_message datagram ≡ ok (received status)
unfolding codec
decode_status = refl

decode_short : decode_coap_message (0x40 ∷ 1 ∷ 0 ∷ []) ≡ err too_short
unfolding codec
decode_short = refl

decode_reserved : decode_coap_message (0x40 ∷ 1 ∷ 0 ∷ 0 ∷ 0xf1 ∷ 0 ∷ []) ≡ err reserved_delta
unfolding codec
decode_reserved = refl

status-IsEncodable : IsEncodable status
unfolding codec
status-IsEncodable = omega arith

decode-encode_example :
    (bytes : List ℕ) × (encode_coap_message status ≡ ok bytes)
    × (decode_coap_message bytes ≡ ok (received status))
decode-encode_example = decode-encode_coap_message status status-IsEncodable

decode_total_example : decode_coap_message datagram ≢ err out_of_fuel
decode_total_example = decode_coap_message_total datagram (omega arith)

-- A token of nine bytes.
abbrev long_token : List ℕ
long_token = 0x49 ∷ 1 ∷ 0 ∷ 0 ∷ 1 ∷ 2 ∷ 3 ∷ 4 ∷ 5 ∷ 6 ∷ 7 ∷ 8 ∷ 9 ∷ []

abbrev long_message : CoapMessage
long_message = record {
  version = 1;
  type = 0;
  token_length = 9;
  code = 1;
  message_id = 0;
  token = 1 ∷ 2 ∷ 3 ∷ 4 ∷ 5 ∷ 6 ∷ 7 ∷ 8 ∷ 9 ∷ [];
  options = [];
  payload = none;
}

decode_long_token : decode_coap_message long_token ≡ ok long_message
unfolding codec
decode_long_token = refl

encode-decode_example :
    ((9 ≤ 8)
      × ((bytes : List ℕ) × (encode_coap_message long_message ≡ ok bytes)
          × (decode_coap_message bytes ≡ ok long_message)))
    ⊎ ((8 < 9) × (encode_coap_message long_message ≡ err token_too_long))
encode-decode_example =
    encode-decode_coap_message long_token long_message (omega arith) decode_long_token

abbrev get_status : CoapMessage
get_status = record {
  version = 1;
  type = 1;
  token_length = 0;
  code = 1;
  message_id = 7;
  token = [];
  options = uri_path ∷ [];
  payload = none;
}

uri_path-Encodable : Encodable 0 (sort_options (uri_path ∷ []))
unfolding codec
uri_path-Encodable = omega arith
