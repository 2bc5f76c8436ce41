-- ===== src/Coap/Decoding.antt =====
-- What decodeCoapMessage guarantees on any datagram.
use matterbridge.Base.{
  ℕ, zero, suc, ◌+◌, ◌-◌, ◌/◌, ◌≤◌, ◌<◌, bit_and, ◌≡◌, refl, sym, subst, ◌∙◌, ◌≢◌, inl, inr, some,
  List, [], ◌∷◌, ◌++◌, append_assoc, append-nil, arith, ltb, ◌==◌, ltb→lt, Bool-cases, length, All,
  ok, err, Result-cases, byte, subarray, >>=-eq-ok, IsByte, byte-lt, length-subarray, ok-injective,
}
use matterbridge.Coap.{
  CoapMessage, CoapOption, CoapError, out_of_fuel, bad_delta, reserved_delta, bad_length,
  reserved_length, decode_token, decode_extended, decode_option, decode_options,
  decode_coap_message,
}
use matterbridge.Coap.Bits.{version_bits, type_bits, low_nibble, high_nibble}
use matterbridge.Coap.Options.{Encodable, field_limit}
use matterbridge.Coap.RoundTrip.{sent_payload, read_payload}

module _ (msg : List ℕ) (bytes : All IsByte msg) where
  decode_extended_bounds :
      (bad reserved : CoapError) (off nibble : ℕ) {n off' : ℕ}
      → nibble < 16
      → decode_extended bad reserved msg off nibble ≡ ok (n, off')
      → (n < field_limit) × (off ≤ off')
  unfolding decode_extended
  decode_extended_bounds bad reserved off nibble h e =
      ground (arith, byte-lt msg off bytes, byte-lt msg (off + 1) bytes)

  -- What one round of the loop reads.
  abbrev Read : ℕ → ℕ → CoapOption → ℕ → Type 0
  Read off current o off' =
      (off < off')
      × (off' ≤ length msg)
      × (current ≤ o.number)
      × (o.number - current < field_limit)
      × (length o.value < field_limit)

  decode_option_bounds :
      (off current : ℕ) {o : CoapOption} {off' : ℕ}
      → decode_option msg off current ≡ ok (o, off')
      → Read off current o off'
  unfolding decode_option
  decode_option_bounds off current e =
      let b = byte-lt msg off bytes in
      let high : bit_and (byte msg off) 0xf0 / 16 < 16 =
        omega (arith, high_nibble (byte msg off) b) in
      let low : bit_and (byte msg off) 0x0f < 16 = omega (arith, low_nibble (byte msg off) b) in
      let ((d, o1), e1, k1) = >>=-eq-ok _ _ e in
      let ((l, o2), e2, k2) = >>=-eq-ok _ _ k1 in
      let h1 = decode_extended_bounds bad_delta reserved_delta (off + 1) _ high e1 in
      let h2 = decode_extended_bounds bad_length reserved_length o1 _ low e2 in
      ground (arith, h1, h2, length-subarray msg o2 (o2 + l))

  decode_options_cons :
      (off current : ℕ) (acc new : List CoapOption) (o : CoapOption) {off' : ℕ}
      {os : List CoapOption}
      → Read off current o off'
      → (os ≡ (acc ++ o ∷ []) ++ new) × Encodable o.number new
      → (os ≡ acc ++ o ∷ new) × Encodable current (o ∷ new)
  decode_options_cons off current acc new o r (e, h) =
      (e ∙ append_assoc acc (o ∷ []) new, (r.2, r.3, r.4, h))

  decode_options_bounds :
      (fuel off current : ℕ) (acc : List CoapOption) {os : List CoapOption} {rest : ℕ}
      → decode_options fuel msg off current acc ≡ ok (os, rest)
      → (new : List CoapOption) × (os ≡ acc ++ new) × Encodable current new
  unfolding decode_options
  decode_options_bounds zero off current acc e = cc
  decode_options_bounds (suc fuel) off current acc e = elim (Bool-cases (ltb off (length msg))) [
    | inr f ↦ ([], ground (arith, append-nil acc), tt)
    | inl f ↦ elim (Bool-cases (byte msg off == 0xff)) [
      | inl g ↦ ([], ground (arith, append-nil acc), tt)
      | inr g ↦
          let ((o, off'), e1, k1) = >>=-eq-ok (decode_option msg off current) _ (rw (f, g) at e) in
          let (new, same, h) = decode_options_bounds fuel off' o.number (acc ++ o ∷ []) k1 in
          (
            o ∷ new,
            (decode_options_cons off current acc new o (decode_option_bounds off current e1)
                (same, h)).0,
            (decode_options_cons off current acc new o (decode_option_bounds off current e1)
                (same, h)).1,
          )
    ]
  ]

  decode_option_fuel : (off current : ℕ) → decode_option msg off current ≢ err out_of_fuel
  unfolding decode_option decode_extended
  decode_option_fuel off current = ground arith

  decode_options_fuel :
      (fuel off current : ℕ) (acc : List CoapOption)
      → off ≤ length msg
      → length msg < fuel + off
      → decode_options fuel msg off current acc ≢ err out_of_fuel
  unfolding decode_options
  decode_options_fuel zero off current acc h k = absurd (omega arith)
  decode_options_fuel (suc fuel) off current acc h k =
      elim (Result-cases (decode_option msg off current)) [
        | inl ((o, off'), e) ↦
            let r = decode_option_bounds off current e in
            rw e (ground (arith, decode_options_fuel fuel off' o.number (acc ++ o ∷ []) r.1, r))
        | inr (er, e) ↦ rw e (ground (arith, decode_option_fuel off current))
      ]

  decode_token_bounds :
      (size : ℕ) {token : List ℕ} {off : ℕ}
      → 4 ≤ length msg
      → decode_token msg size ≡ ok (token, off)
      → (length token ≡ size) × (off ≤ length msg) × (4 ≤ off)
  unfolding decode_token
  decode_token_bounds size h e = ground (arith, length-subarray msg 4 (4 + size))

decode_token_fuel : (msg : List ℕ) (size : ℕ) → decode_token msg size ≢ err out_of_fuel
unfolding decode_token
decode_token_fuel msg size = ground arith

-- The loop over the options ends on every datagram: the fuel of the model, the length of the
-- datagram, never runs out, so the decoder returns a message or throws one of its own errors.
pub decode_coap_message_total :
    (msg : List ℕ) → All IsByte msg → decode_coap_message msg ≢ err out_of_fuel
unfolding decode_coap_message
decode_coap_message_total msg bytes = elim (Bool-cases (ltb (length msg) 4)) [
  | inl e ↦ rw e (ground arith)
  | inr e ↦ elim (Result-cases (decode_token msg (bit_and (byte msg 0) 0x0f))) [
    | inr (er, f) ↦ rw (e, f) (ground (arith, decode_token_fuel msg (bit_and (byte msg 0) 0x0f)))
    | inl ((token, off), f) ↦
        let t = decode_token_bounds msg bytes _ (ground arith) f in
        let enough = decode_options_fuel msg bytes (length msg) off 0 [] t.1 (omega (arith, t.2)) in
        elim (Result-cases (decode_options (length msg) msg off 0 [])) [
          | inl ((os, rest), g) ↦ rw (e, f, g) (ground arith)
          | inr (er, g) ↦ rw (e, f, g) (ground (arith, enough))
        ]
  ]
]

sent_payload-some : (bs : List ℕ) → 0 < length bs → sent_payload (some bs) ≡ some bs
sent_payload-some [] h = absurd (omega arith)
sent_payload-some (b ∷ bs) h = refl

read_payload-sent :
    (msg : List ℕ) (rest : ℕ) → sent_payload (read_payload msg rest) ≡ read_payload msg rest
read_payload-sent msg rest = elim (Bool-cases (ltb rest (length msg))) [
  | inr e ↦ rw e
  | inl e ↦
      let h : rest < length msg = ltb→lt _ _ e in
      rw e (
        sent_payload-some (subarray msg rest (length msg))
          (omega (arith, length-subarray msg rest (length msg))))
]

-- The shape of a decoded message.
pub record IsDecoded (m : CoapMessage) : Type 0 where
  pub version_fits : m.version < 4
  pub type_fits : m.type < 4
  pub code_fits : m.code < 256
  pub id_fits : m.message_id < 65536
  pub token_fits : m.token_length < 16
  pub token_whole : length m.token ≡ m.token_length
  pub options_fit : Encodable 0 m.options
  pub payload_sent : sent_payload m.payload ≡ m.payload

-- A message decoded from a datagram has a version and a type below 4, a code below 256 and a 16 bit
-- id; its token length is below 16 and is the length of its token; its option numbers ascend, by
-- steps and with values that an encoded option can hold; its payload is not empty.
pub decode_coap_message-IsDecoded :
    (msg : List ℕ) {m : CoapMessage} → All IsByte msg → decode_coap_message msg ≡ ok m → IsDecoded m
unfolding decode_coap_message
decode_coap_message-IsDecoded msg {m} bytes e = elim (Bool-cases (ltb (length msg) 4)) [
  | inl short ↦ absurd (cc (rw (short, decode_coap_message) at e))
  | inr long ↦ elim (Result-cases (decode_token msg (bit_and (byte msg 0) 0x0f))) [
    | inr (er, f) ↦ absurd (ground arith)
    | inl ((token, off), f) ↦ elim (Result-cases (decode_options (length msg) msg off 0 [])) [
      | inr (er, g) ↦ absurd (ground arith)
      | inl ((os, rest), g) ↦
          let b = byte-lt msg 0 bytes in
          let t = decode_token_bounds msg bytes _ (ground arith) f in
          let (new, same, fits) = decode_options_bounds msg bytes _ _ _ _ g in
          subst IsDecoded (ok-injective {E = CoapError} (rw (long, f, g) at e)) (record {
            version_fits = omega (arith, version_bits (byte msg 0) b, b);
            type_fits = omega (arith, type_bits (byte msg 0) b, b);
            code_fits = byte-lt msg 1 bytes;
            id_fits = omega (arith, byte-lt msg 2 bytes, byte-lt msg 3 bytes);
            token_fits = omega (arith, low_nibble (byte msg 0) b, b);
            token_whole = t.0;
            options_fit = subst (Encodable 0) (sym same) fits;
            payload_sent = read_payload-sent msg rest;
          })
    ]
  ]
]
