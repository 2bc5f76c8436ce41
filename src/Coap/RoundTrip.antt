-- ===== src/Coap/RoundTrip.antt =====
-- decodeCoapMessage undoes encodeCoapMessage.
use matterbridge.Base.{
  ℕ, ◌+◌, ◌*◌, ◌/◌, ◌%◌, ◌≤◌, ◌<◌, bit_and, ◌≡◌, refl, sym, ap, subst, ◌∙◌, Option, none, some,
  List, [], ◌∷◌, ◌++◌, append-nil, arith, ltb, if◌then◌else◌, ltb_of_le, lt→ltb, length,
  length-append, ok, subarray, word, At, At-lt, At-nil, At-append_le, At-append, At-subarray,
  At-next,
}
use matterbridge.Coap.{
  CoapMessage, sort_options, write_word, encode_payload, encode_coap_message, decode_token,
  decode_coap_message,
}
use matterbridge.Coap.Bits.{version_bits, type_bits, low_nibble, pack_header}
use matterbridge.Coap.Options.{
  options_bytes, Encodable, Ends, at_end, at_marker, encode_options_fits, decode_options_lem,
  length-options_bytes,
}

-- What the fields of the wire format can hold.
pub record IsEncodable (m : CoapMessage) : Type 0 where
  pub version_fits : m.version < 4
  pub type_fits : m.type < 4
  pub code_fits : m.code < 256
  pub id_fits : m.message_id < 65536
  pub token_fits : length m.token ≤ 8
  pub options_fit : Encodable 0 (sort_options m.options)

-- An empty payload is not sent.
abbrev pub sent_payload : Option (List ℕ) → Option (List ℕ)
sent_payload none = none
sent_payload (some []) = none
sent_payload (some (b ∷ bs)) = some (b ∷ bs)

-- The message that the receiver sees: the options in order, and the true token length.
abbrev pub received : CoapMessage → CoapMessage
received m = record m {
  token_length = length m.token;
  options = sort_options m.options;
  payload = sent_payload m.payload;
}

abbrev header : CoapMessage → ℕ
header m = m.version * 64 + m.type * 16 + length m.token

abbrev message_bytes : CoapMessage → List ℕ
message_bytes m =
    header m
    ∷ m.code
    ∷ (m.message_id / 256)
    ∷ (m.message_id % 256)
    ∷ (m.token ++ (options_bytes 0 (sort_options m.options) ++ encode_payload m.payload))

encode_bytes : (m : CoapMessage) → IsEncodable m → encode_coap_message m ≡ ok (message_bytes m)
unfolding encode_coap_message write_word
encode_bytes m v =
    let code : m.code % 256 ≡ m.code = omega (arith, v.code_fits) in
    rw (
      ltb_of_le 8 (length m.token) v.token_fits,
      lt→ltb m.message_id 65536 v.id_fits,
      encode_options_fits 0 (sort_options m.options) v.options_fit,
      pack_header m.version m.type (length m.token) v.version_fits v.type_fits
          (omega (arith, v.token_fits)),
      code,
    )

decode_token_lem :
    (msg token rest : List ℕ)
    → At msg 4 (token ++ rest)
    → decode_token msg (length token) ≡ ok (token, 4 + length token)
unfolding decode_token
decode_token_lem msg [] rest a = refl
decode_token_lem msg (b ∷ bs) rest a = rw (
  lt→ltb 0 (length (b ∷ bs)) (omega arith),
  ltb_of_le (length msg) (4 + length (b ∷ bs)) (At-append_le (b ∷ bs) rest a),
  At-subarray (b ∷ bs) rest a,
)

-- How far behind the options the payload begins.
abbrev marker : Option (List ℕ) → ℕ
marker none = 0
marker (some []) = 0
marker (some (b ∷ bs)) = 1

marker-Ends : (p : Option (List ℕ)) → Ends (encode_payload p) (marker p)
unfolding encode_payload
marker-Ends none = at_end
marker-Ends (some []) = at_end
marker-Ends (some (b ∷ bs)) = at_marker (b ∷ bs)

abbrev pub read_payload : List ℕ → ℕ → Option (List ℕ)
read_payload msg rest =
    if ltb rest (length msg) then some (subarray msg rest (length msg)) else none

read_nothing : (msg : List ℕ) (off : ℕ) → At msg off [] → read_payload msg (off + 0) ≡ none
read_nothing msg off a = rw (ltb_of_le (off + 0) (length msg) (omega (arith, At-nil a)))

read_payload_lem :
    (msg : List ℕ) (off : ℕ) (p : Option (List ℕ))
    → At msg off (encode_payload p)
    → read_payload msg (off + marker p) ≡ sent_payload p
unfolding encode_payload
read_payload_lem msg off none a = read_nothing msg off a
read_payload_lem msg off (some []) a = read_nothing msg off a
read_payload_lem msg off (some (b ∷ bs)) a =
    let whole : At msg (off + 1) ((b ∷ bs) ++ []) =
      subst (At msg (off + 1)) (sym (append-nil (b ∷ bs))) (At-next a) in
    let last : off + 1 + length (b ∷ bs) ≡ length msg = At-nil (At-append (b ∷ bs) [] whole) in
    rw (lt→ltb (off + 1) (length msg) (At-lt whole))
      (ap some (rw (← last) (At-subarray (b ∷ bs) [] whole)))

record Header (m : CoapMessage) : Type 0 where
  version : bit_and (header m) 0xc0 / 64 ≡ m.version
  type : bit_and (header m) 0x30 / 16 ≡ m.type
  size : bit_and (header m) 0x0f ≡ length m.token

header_lem : (m : CoapMessage) → IsEncodable m → Header m
header_lem m v =
    let fits : header m < 256 = omega (arith, v.version_fits, v.type_fits, v.token_fits) in
    record {
      version =
          version_bits (header m) fits ∙ omega (arith, v.version_fits, v.type_fits, v.token_fits);
      type = type_bits (header m) fits ∙ omega (arith, v.version_fits, v.type_fits, v.token_fits);
      size = low_nibble (header m) fits ∙ omega (arith, v.version_fits, v.type_fits, v.token_fits);
    }

-- Every message whose fields fit the wire format is encoded, and decoding the bytes gives the
-- message back, with its options in ascending order, its token length filled in and an empty
-- payload left out.
pub decode-encode_coap_message :
    (m : CoapMessage)
    → IsEncodable m
    → (bytes : List ℕ) × (encode_coap_message m ≡ ok bytes)
      × (decode_coap_message bytes ≡ ok (received m))
unfolding decode_coap_message
decode-encode_coap_message m v =
    let msg = message_bytes m in
    let sorted = sort_options m.options in
    let tail = options_bytes 0 sorted ++ encode_payload m.payload in
    let at_token : At msg 4 (m.token ++ tail) = record { within = omega arith; suffix = refl } in
    let at_options = At-append m.token tail at_token in
    let at_payload = At-append (options_bytes 0 sorted) (encode_payload m.payload) at_options in
    let h = header_lem m v in
    let fuel : length sorted < length msg = omega (
      arith,
      length-options_bytes 0 sorted,
      length-append {0} m.token tail,
      length-append {0} (options_bytes 0 sorted) (encode_payload m.payload),
    ) in
    let options =
      decode_options_lem (length msg) (4 + length m.token) 0 [] sorted (marker-Ends m.payload)
        at_options v.options_fit fuel in
    let id : word msg 2 ≡ m.message_id = omega arith in
    let payload =
      read_payload_lem msg (4 + length m.token + length (options_bytes 0 sorted)) m.payload
        at_payload in
    (
      msg,
      encode_bytes m v,
      rw
          (
            ltb_of_le (length msg) 4 (omega arith),
            h.version,
            h.type,
            h.size,
            decode_token_lem msg m.token tail at_token,
            options,
          )
          λ i. ok (record m {
            token_length = length m.token;
            message_id = id i;
            options = sorted;
            payload = payload i;
          }),
    )
