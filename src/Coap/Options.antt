-- ===== src/Coap/Options.antt =====
-- An encoded option reads back: the extended fields, one option, and the loop over the options.
use matterbridge.Base.{
  ℕ, zero, suc, ◌+◌, ◌-◌, ◌*◌, ◌/◌, ◌%◌, ◌≤◌, ◌<◌, bit_and, ◌≡◌, refl, subst, ◌∙◌, inl, inr, false,
  List, [], ◌∷◌, ◌++◌, append_assoc, append-nil, arith, ltb, ◌==◌, if◌then◌else◌, ltb_of_le, lt→ltb,
  Bool-cases, length, length-append, ok, word_bytes, At, At-byte, At-lt, At-nil, At-append_le,
  At-append, At-subarray, At-next,
}
use matterbridge.Coap.{
  CoapOption, CoapError, bad_delta, reserved_delta, bad_length, reserved_length, decode_extended,
  decode_option, decode_options, encode_extended, encode_option, encode_options,
}
use matterbridge.Coap.Bits.{high_nibble, low_nibble, pack_nibbles}

-- The largest field that the two bytes of an extension hold, plus one.
abbrev pub field_limit : ℕ
field_limit = 65805

unfoldable pub nibble : ℕ → ℕ
nibble n = if ltb n 13 then n else if ltb n 269 then 13 else 14

unfoldable pub extension : ℕ → List ℕ
extension n = if ltb n 13 then [] else if ltb n 269 then (n - 13) ∷ [] else word_bytes (n - 269)

pub encode_extended_fits :
    (n : ℕ) → n < field_limit → encode_extended n ≡ ok (nibble n, extension n)
unfolding encode_extended nibble extension
encode_extended_fits n h = ground arith

pub nibble-lt : (n : ℕ) → nibble n < 15
unfolding nibble
nibble-lt n = ground arith

module _ (bad reserved : CoapError) {msg : List ℕ} {off : ℕ} where
  decode_extended_one :
      (n : ℕ) (rest : List ℕ)
      → At msg off ((n - 13) ∷ rest)
      → 13 ≤ n
      → decode_extended bad reserved msg off 13 ≡ ok (n, off + 1)
  unfolding decode_extended
  decode_extended_one n rest a h = ground (arith, At-byte a, At-lt a)

  decode_extended_two :
      (n : ℕ) (rest : List ℕ)
      → At msg off ((n - 269) / 256 ∷ (n - 269) % 256 ∷ rest)
      → 269 ≤ n
      → decode_extended bad reserved msg off 14 ≡ ok (n, off + 2)
  unfolding decode_extended
  decode_extended_two n rest a h = ground (arith, At-byte a, At-byte (At-next a), At-lt (At-next a))

  pub decode_extended_lem :
      (n : ℕ) (rest : List ℕ)
      → At msg off (extension n ++ rest)
      → decode_extended bad reserved msg off (nibble n) ≡ ok (n, off + length (extension n))
  unfolding decode_extended nibble extension
  decode_extended_lem n rest a = elim (Bool-cases (ltb n 13)) [
    | inl e ↦ rw e (ground arith)
    | inr e ↦ elim (Bool-cases (ltb n 269)) [
      | inl f ↦ rw (e, f) (decode_extended_one n rest (rw (e, f) at a) (ground arith))
      | inr f ↦ rw (e, f) (decode_extended_two n rest (rw (e, f) at a) (ground arith))
    ]
  ]

abbrev pub option_bytes : ℕ → CoapOption → List ℕ
option_bytes previous o =
    (nibble (o.number - previous) * 16 + nibble (length o.value))
    ∷ (extension (o.number - previous) ++ (extension (length o.value) ++ o.value))

pub encode_option_fits :
    (previous : ℕ) (o : CoapOption)
    → o.number - previous < field_limit
    → length o.value < field_limit
    → encode_option previous o ≡ ok (option_bytes previous o)
unfolding encode_option
encode_option_fits previous o hd hl =
    let d = o.number - previous in
    let l = length o.value in
    rw (
      encode_extended_fits d hd,
      encode_extended_fits l hl,
      pack_nibbles (nibble d) (nibble l) (omega (arith, nibble-lt d)) (omega (arith, nibble-lt l)),
    )

header_nibbles :
    (d l : ℕ)
    → d < 15
    → l < 15
    → (bit_and (d * 16 + l) 0xf0 / 16 ≡ d) × (bit_and (d * 16 + l) 0x0f ≡ l)
header_nibbles d l hd hl = (
  high_nibble (d * 16 + l) (omega arith) ∙ omega arith,
  low_nibble (d * 16 + l) (omega arith) ∙ omega arith,
)

append_regroup : (a b c rest : List ℕ) → (a ++ (b ++ c)) ++ rest ≡ a ++ (b ++ (c ++ rest))
append_regroup a b c rest = simp append_assoc

module _ {msg : List ℕ} {off : ℕ} (previous : ℕ) (o : CoapOption) (rest : List ℕ) where
  pub decode_option_lem :
      At msg off (option_bytes previous o ++ rest)
      → previous ≤ o.number
      → decode_option msg off previous ≡ ok (o, off + length (option_bytes previous o))
  unfolding decode_option
  decode_option_lem a h =
      let d = o.number - previous in
      let l = length o.value in
      let (high, low) = header_nibbles (nibble d) (nibble l) (nibble-lt d) (nibble-lt l) in
      let after_header = At-next a in
      let at_delta : At msg (off + 1) (extension d ++ (extension l ++ (o.value ++ rest))) =
        subst (At msg (off + 1)) (append_regroup (extension d) (extension l) o.value rest)
          after_header in
      let at_length = At-append (extension d) (extension l ++ (o.value ++ rest)) at_delta in
      let at_value = At-append (extension l) (o.value ++ rest) at_length in
      let number : previous + d ≡ o.number = omega arith in
      let total : off + length (option_bytes previous o)
          ≡ off + 1 + length (extension d) + length (extension l) + l =
        omega (
          arith,
          length-append {0} (extension d) (extension l ++ o.value),
          length-append {0} (extension l) o.value,
        ) in
      rw (
        At-byte a,
        high,
        low,
        decode_extended_lem bad_delta reserved_delta d _ at_delta,
        decode_extended_lem bad_length reserved_length l _ at_length,
        ltb_of_le _ _ (At-append_le o.value rest at_value),
        At-subarray o.value rest at_value,
        number,
        total,
      )

abbrev pub options_bytes : ℕ → List CoapOption → List ℕ
options_bytes previous [] = []
options_bytes previous (o ∷ os) = option_bytes previous o ++ options_bytes o.number os

-- The options stand in ascending order from `previous`, and their fields fit.
abbrev pub Encodable : ℕ → List CoapOption → Type 0
Encodable previous [] = Unit
Encodable previous (o ∷ os) =
    (previous ≤ o.number)
    × (o.number - previous < field_limit)
    × (length o.value < field_limit)
    × Encodable o.number os

pub encode_options_fits :
    (previous : ℕ) (os : List CoapOption)
    → Encodable previous os
    → encode_options previous os ≡ ok (options_bytes previous os)
unfolding encode_options
encode_options_fits previous [] h = refl
encode_options_fits previous (o ∷ os) (_, hd, hl, h) =
    rw (encode_option_fits previous o hd hl, encode_options_fits o.number os h)

-- Where the loop stops: at the end of the message, or behind the payload marker.
pub data Ends : List ℕ → ℕ → Type 0 where
  at_end : Ends [] 0
  at_marker : (payload : List ℕ) → Ends (0xff ∷ payload) 1

first_byte :
    (previous : ℕ) (o : CoapOption)
    → nibble (o.number - previous) * 16 + nibble (length o.value) < 255
first_byte previous o = omega (arith, nibble-lt (o.number - previous), nibble-lt (length o.value))

not_marker : (b : ℕ) → b < 255 → (b == 0xff) ≡ false
not_marker b h = ground arith

decode_options_end :
    (fuel : ℕ) {msg : List ℕ} {off : ℕ} (current : ℕ) (acc : List CoapOption) {tail : List ℕ}
    {n : ℕ}
    → Ends tail n
    → At msg off tail
    → 0 < fuel
    → decode_options fuel msg off current acc ≡ ok (acc, off + n)
unfolding decode_options
decode_options_end zero current acc e a h = absurd (omega arith)
decode_options_end (suc fuel) {msg} {off} current acc at_end a h =
    let same : off ≡ off + 0 = omega arith in
    rw (ltb_of_le off (length msg) (omega (arith, At-nil a)), ← same)
decode_options_end (suc fuel) current acc (at_marker payload) a h =
    rw (lt→ltb _ _ (At-lt a), At-byte a)

pub decode_options_lem :
    (fuel : ℕ) {msg : List ℕ} (off previous : ℕ) (acc os : List CoapOption) {tail : List ℕ} {n : ℕ}
    → Ends tail n
    → At msg off (options_bytes previous os ++ tail)
    → Encodable previous os
    → length os < fuel
    → decode_options fuel msg off previous acc
      ≡ ok (acc ++ os, off + length (options_bytes previous os) + n)
unfolding decode_options
decode_options_lem zero off previous acc os e a f h = absurd (omega arith)
decode_options_lem (suc fuel) off previous acc [] {n = n} e a f h =
    let same : off + 0 ≡ off = omega arith in
    rw (append-nil acc, same) (decode_options_end (suc fuel) previous acc e a h)
decode_options_lem (suc fuel) {msg} off previous acc (o ∷ os) {tail = tail} {n = n} e a f h =
    let part = option_bytes previous o in
    let a' = subst (At msg off) (append_assoc part (options_bytes o.number os) tail) a in
    let total : off + length part + length (options_bytes o.number os)
        ≡ off + length (options_bytes previous (o ∷ os)) =
      omega (arith, length-append {0} part (options_bytes o.number os)) in
    let ih =
      decode_options_lem fuel (off + length part) o.number (acc ++ o ∷ []) os e
        (At-append part _ a') f.3 (omega arith) in
    let regroup : (acc ++ o ∷ []) ++ os ≡ acc ++ o ∷ os = append_assoc acc (o ∷ []) os in
    rw
      (
        lt→ltb _ _ (At-lt a),
        At-byte a',
        not_marker _ (first_byte previous o),
        decode_option_lem previous o _ a' f.0,
      )
      (rw (total, regroup) at ih)

pub length-options_bytes :
    (previous : ℕ) (os : List CoapOption) → length os ≤ length (options_bytes previous os)
length-options_bytes previous [] = omega arith
length-options_bytes previous (o ∷ os) = omega (
  arith,
  length-append {0} (option_bytes previous o) (options_bytes o.number os),
  length-options_bytes o.number os,
)
