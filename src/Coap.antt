-- ===== src/Coap.antt =====
-- packages/dgram/src/coap.ts: the CoAP message codec of class Coap. Child modules hold the proofs.
-- A Buffer is its list of bytes; an offset is absolute, as in the source. Numbers are naturals:
-- the encoder subtracts option numbers only in sorted order.
pub mod Bits
pub mod Options
pub mod Sorting
pub mod RoundTrip
pub mod Decoding
pub mod Recoding
pub mod Requests
pub mod Tests
use matterbridge.Base.{
  ℕ, zero, suc, ◌+◌, ◌-◌, ◌*◌, ◌/◌, ◌%◌, bit_and, bit_or, Option, none, some, List, [], ◌∷◌, ◌++◌,
  ltb, leb, ◌==◌, if◌then◌else◌, length, Result, ok, err, ◌>>=◌, ◌>>◌, throw_if, byte, subarray,
  word, word_bytes,
}

pub record CoapOption : Type 0 where
  pub number : ℕ
  pub value : List ℕ

pub record CoapMessage : Type 0 where
  pub version : ℕ
  pub type : ℕ
  pub token_length : ℕ
  pub code : ℕ
  pub message_id : ℕ
  pub token : List ℕ
  pub options : List CoapOption
  pub payload : Option (List ℕ)

-- The errors thrown; `out_of_range` is the RangeError of writeUInt16BE, and `out_of_fuel` is the
-- model's own, which no run returns.
pub data CoapError : Type 0 where
  too_short token_too_short bad_delta reserved_delta bad_length reserved_length : CoapError
  option_too_long token_too_long out_of_range out_of_fuel : CoapError

-- Extended delta handling, and extended length handling: the field and the offset behind it.
unfoldable pub decode_extended : CoapError → CoapError → List ℕ → ℕ → ℕ → Result CoapError (ℕ × ℕ)
decode_extended bad reserved msg offset nibble =
    if nibble == 13
    then (if leb (length msg) offset then err bad else ok (byte msg offset + 13, offset + 1))
    else if nibble == 14
    then (if leb (length msg) (offset + 1) then err bad else ok (word msg offset + 269, offset + 2))
    else if nibble == 15
    then err reserved
    else ok (nibble, offset)

-- One round of the option loop, from the header byte on: the option and the offset behind it.
unfoldable pub decode_option : List ℕ → ℕ → ℕ → Result CoapError (CoapOption × ℕ)
decode_option msg offset current = do
  let option_header = byte msg offset
  (delta, after_delta) ←
      decode_extended bad_delta reserved_delta msg (offset + 1) (bit_and option_header 0xf0 / 16)
  (size, after_length) ←
      decode_extended bad_length reserved_length msg after_delta (bit_and option_header 0x0f)
  throw_if (ltb (length msg) (after_length + size)) option_too_long
  ok (
    record { number = current + delta; value = subarray msg after_length (after_length + size) },
    after_length + size,
  )

-- `while (offset < msg.length)`: the options read, and the offset where the payload begins.
unfoldable pub decode_options :
    ℕ → List ℕ → ℕ → ℕ → List CoapOption → Result CoapError (List CoapOption × ℕ)
decode_options zero msg offset current options = err out_of_fuel
decode_options (suc fuel) msg offset current options =
    let more = decode_option msg offset current >>= λ read.
    decode_options fuel msg read.1 read.0.number (options ++ read.0 ∷ []) in
    if ltb offset (length msg)
    then (if byte msg offset == 0xff then ok (options, offset + 1) else more)
    else ok (options, offset)

unfoldable pub decode_token : List ℕ → ℕ → Result CoapError (List ℕ × ℕ)
decode_token msg token_length =
    if ltb 0 token_length
    then (if ltb (length msg) (4 + token_length)
        then err token_too_short
        else ok (subarray msg 4 (4 + token_length), 4 + token_length))
    else ok ([], 4)

unfoldable pub decode_coap_message : List ℕ → Result CoapError CoapMessage
decode_coap_message msg = do
  throw_if (ltb (length msg) 4) too_short
  let token_length = bit_and (byte msg 0) 0x0f
  (token, offset) ← decode_token msg token_length
  (options, rest) ← decode_options (length msg) msg offset 0 []
  ok (record {
    version = bit_and (byte msg 0) 0xc0 / 64;
    type = bit_and (byte msg 0) 0x30 / 16;
    token_length = token_length;
    code = byte msg 1;
    message_id = word msg 2;
    token = token;
    options = options;
    payload = if ltb rest (length msg) then some (subarray msg rest (length msg)) else none;
  })

-- `writeUInt16BE` throws on a number that does not fit.
unfoldable pub write_word : ℕ → Result CoapError (List ℕ)
write_word n = if ltb n 65536 then ok (word_bytes n) else err out_of_range

-- The nibble and the extended field of an option delta, and of an option length.
unfoldable pub encode_extended : ℕ → Result CoapError (ℕ × List ℕ)
unfolding write_word
encode_extended n =
    if ltb n 13
    then ok (n, [])
    else if ltb n 269
    then ok (13, (n - 13) ∷ [])
    else (write_word (n - 269) >>= λ w. ok (14, w))

-- `toSorted((a, b) => a.number - b.number)`, which is stable.
unfoldable pub insert_option : CoapOption → List CoapOption → List CoapOption
insert_option o [] = o ∷ []
insert_option o (p ∷ ps) = if leb o.number p.number then o ∷ p ∷ ps else p ∷ insert_option o ps

unfoldable pub sort_options : List CoapOption → List CoapOption
sort_options [] = []
sort_options (o ∷ os) = insert_option o (sort_options os)

unfoldable pub encode_option : ℕ → CoapOption → Result CoapError (List ℕ)
encode_option previous o = do
  (delta_nibble, delta_extended) ← encode_extended (o.number - previous)
  (length_nibble, length_extended) ← encode_extended (length o.value)
  ok (
      bit_or (delta_nibble * 16) (bit_and length_nibble 0x0f) ∷ delta_extended
      ++ (length_extended ++ o.value))

unfoldable pub encode_options : ℕ → List CoapOption → Result CoapError (List ℕ)
encode_options previous [] = ok []
encode_options previous (o ∷ os) = do
  first ← encode_option previous o
  rest ← encode_options o.number os
  ok (first ++ rest)

-- The payload marker and the payload, if the payload is there and not empty.
unfoldable pub encode_payload : Option (List ℕ) → List ℕ
encode_payload none = []
encode_payload (some []) = []
encode_payload (some (b ∷ bs)) = 0xff ∷ b ∷ bs

-- `header[1] = msg.code` keeps the low byte.
unfoldable pub encode_coap_message : CoapMessage → Result CoapError (List ℕ)
encode_coap_message msg = do
  throw_if (ltb 8 (length msg.token)) token_too_long
  let first =
      bit_or (bit_or (bit_and msg.version 0x03 * 64) (bit_and msg.type 0x03 * 16))
        (bit_and (length msg.token) 0x0f)
  id_bytes ← write_word msg.message_id
  options ← encode_options 0 (sort_options msg.options)
  ok (first ∷ (msg.code % 256) ∷ id_bytes ++ (msg.token ++ (options ++ encode_payload msg.payload)))

-- `token ? Buffer.from(token) : Buffer.alloc(0)`: the bytes of the token, if there is one.
unfoldable pub token_bytes : Option (List ℕ) → List ℕ
token_bytes none = []
token_bytes (some token) = token

-- The message of sendRequest. The token and the JSON text of the payload are given as bytes.
unfoldable pub request_message :
    ℕ → List CoapOption → Option (List ℕ) → Option (List ℕ) → CoapMessage
unfolding token_bytes
request_message message_id options payload token = record {
  version = 1;
  type = 1;
  token_length = length (token_bytes token);
  code = 1;
  message_id = message_id;
  token = token_bytes token;
  options = options;
  payload = payload;
}

-- The datagram that sendRequest hands to the socket.
unfoldable pub send_request :
    ℕ → List CoapOption → Option (List ℕ) → Option (List ℕ) → Result CoapError (List ℕ)
send_request message_id options payload token =
    encode_coap_message (request_message message_id options payload token)
