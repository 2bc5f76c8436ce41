-- ===== src/Coap/Requests.antt =====
-- sendRequest and its receiver.
use matterbridge.Base.{ℕ, ◌≤◌, ◌<◌, ◌≡◌, Option, List, arith, length, ok}
use matterbridge.Coap.{
  CoapOption, sort_options, token_bytes, request_message, send_request, decode_coap_message,
}
use matterbridge.Coap.Options.{Encodable}
use matterbridge.Coap.RoundTrip.{IsEncodable, sent_payload, decode-encode_coap_message}

request_message-IsEncodable :
    (message_id : ℕ) (options : List CoapOption) (payload token : Option (List ℕ))
    → message_id < 65536
    → length (token_bytes token) ≤ 8
    → Encodable 0 (sort_options options)
    → IsEncodable (request_message message_id options payload token)
unfolding request_message
request_message-IsEncodable message_id options payload token hi ht ho = record {
  version_fits = omega arith;
  type_fits = omega arith;
  code_fits = omega arith;
  id_fits = hi;
  token_fits = ht;
  options_fit = ho;
}

-- A request with a 16 bit message id, a token of at most eight bytes and options that fit is sent,
-- and its receiver decodes version 1, type 1 (a non-confirmable message), code 1 (GET), the id, the
-- token, the options in ascending order and the payload, an empty one as none.
pub decode-send_request :
    (message_id : ℕ) (options : List CoapOption) (payload token : Option (List ℕ))
    → message_id < 65536
    → length (token_bytes token) ≤ 8
    → Encodable 0 (sort_options options)
    → (datagram : List ℕ) × (send_request message_id options payload token ≡ ok datagram)
      × (decode_coap_message datagram
          ≡ ok (record {
            version = 1;
            type = 1;
            token_length = length (token_bytes token);
            code = 1;
            message_id = message_id;
            token = token_bytes token;
            options = sort_options options;
            payload = sent_payload payload;
          }))
unfolding send_request request_message
decode-send_request message_id options payload token hi ht ho =
    decode-encode_coap_message (request_message message_id options payload token)
      (request_message-IsEncodable message_id options payload token hi ht ho)
