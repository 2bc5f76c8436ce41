-- ===== src/Coap/Recoding.antt =====
-- coap.ts: a message that was decoded from a datagram, encoded again.
use matterbridge.Base.{
  ℕ, ◌≤◌, ◌<◌, ◌≡◌, sym, ap, subst, ◌∙◌, ◌⊎◌, inl, inr, List, [], ◌∷◌, arith, leb, lt→ltb, leb→le,
  Bool-cases, length, All, ok, err, IsByte,
}
use matterbridge.Coap.{
  CoapMessage, CoapOption, token_too_long, decode_coap_message, sort_options, encode_coap_message,
}
use matterbridge.Coap.Options.{Encodable}
use matterbridge.Coap.Sorting.{Ascending, sort_options_sorted}
use matterbridge.Coap.RoundTrip.{IsEncodable, received, decode-encode_coap_message}
use matterbridge.Coap.Decoding.{IsDecoded, decode_coap_message-IsDecoded}

Encodable-Ascending :
    (previous : ℕ) (os : List CoapOption) → Encodable previous os → Ascending previous os
Encodable-Ascending previous [] h = tt
Encodable-Ascending previous (o ∷ os) h = (h.0, Encodable-Ascending o.number os h.3)

module _ {m : CoapMessage} (d : IsDecoded m) where
  sorted : sort_options m.options ≡ m.options
  sorted = sort_options_sorted 0 m.options (Encodable-Ascending 0 m.options d.options_fit)

  IsDecoded-IsEncodable : m.token_length ≤ 8 → IsEncodable m
  IsDecoded-IsEncodable h = record {
    version_fits = d.version_fits;
    type_fits = d.type_fits;
    code_fits = d.code_fits;
    id_fits = d.id_fits;
    token_fits = omega (arith, d.token_whole);
    options_fit = subst (Encodable 0) (sym sorted) d.options_fit;
  }

  received_decoded : received m ≡ m
  received_decoded = λ i. record m {
    token_length = d.token_whole i;
    options = sorted i;
    payload = d.payload_sent i;
  }

  encode_long_token : 8 < m.token_length → encode_coap_message m ≡ err token_too_long
  unfolding encode_coap_message
  encode_long_token h = rw (lt→ltb 8 (length m.token) (omega (arith, d.token_whole)))

-- A message that was decoded can be sent on: it is encoded, and its bytes decode to the same
-- message, unless its token is longer than eight bytes; those the decoder accepts and the encoder
-- refuses.
pub encode-decode_coap_message :
    (msg : List ℕ) (m : CoapMessage)
    → All IsByte msg
    → decode_coap_message msg ≡ ok m
    → ((m.token_length ≤ 8)
        × ((bytes : List ℕ) × (encode_coap_message m ≡ ok bytes)
            × (decode_coap_message bytes ≡ ok m)))
      ⊎ ((8 < m.token_length) × (encode_coap_message m ≡ err token_too_long))
encode-decode_coap_message msg m bytes e =
    let d = decode_coap_message-IsDecoded msg bytes e in
    elim (Bool-cases (leb m.token_length 8)) [
      | inr long ↦ let h : 8 < m.token_length = ground arith in inr (h, encode_long_token d h)
      | inl short ↦
          let h = leb→le m.token_length 8 short in
          let (sent, encoded, decoded) = decode-encode_coap_message m (IsDecoded-IsEncodable d h) in
          inl (h, (sent, encoded, decoded ∙ ap ok (received_decoded d)))
    ]
