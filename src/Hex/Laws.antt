-- ===== src/Hex/Laws.antt =====
-- The two conversions undo one another.
use matterbridge.Base.{
  ℕ, ◌+◌, ◌*◌, ◌/◌, ◌%◌, ◌<◌, ◌≡◌, refl, ◌≢◌, ◌⊎◌, inl, inr, Bool, true, false, ◌&&◌, not, List, [],
  ◌∷◌, map, arith, ltb, ◌==◌, if◌then◌else◌, Bool-cases, all_below, all_below_sound, length, All,
  ok, err, IsByte, within, is_space, trim, NotSpace, trim_none,
}
use matterbridge.Hex.{
  odd_length, not_hex, hex_digit, byte_to_hex, buffer_to_hex, is_hex, all_hex, hex_value, hex_pairs,
  hex_to_buffer,
}

abbrev digit_ok : ℕ → Bool
digit_ok d = is_hex (hex_digit d) && not (is_space (hex_digit d)) && hex_value (hex_digit d) == d

digit_table : all_below 16 digit_ok ≡ true
unfolding all_below is_hex hex_digit hex_value is_space
digit_table = refl

record IsDigit (d : ℕ) : Type 0 where
  hex : is_hex (hex_digit d) ≡ true
  plain : is_space (hex_digit d) ≡ false
  value : hex_value (hex_digit d) ≡ d

digit_lem : (d : ℕ) → d < 16 → IsDigit d
digit_lem d h = ground (arith, all_below_sound digit_ok 16 d digit_table h)

byte_to_hex_lem : (b : ℕ) → b < 256 → byte_to_hex b ≡ hex_digit (b / 16) ∷ hex_digit (b % 16) ∷ []
unfolding byte_to_hex
byte_to_hex_lem b h = elim (Bool-cases (ltb b 16)) [
  | inr e ↦ rw e
  | inl e ↦
      let high : b / 16 ≡ 0 = ground arith in
      let low : b % 16 ≡ b = ground arith in rw (e, high, low, hex_digit)
]

buffer_to_hex-NotSpace : (bs : List ℕ) → All IsByte bs → All NotSpace (buffer_to_hex bs)
unfolding buffer_to_hex
buffer_to_hex-NotSpace [] h = tt
buffer_to_hex-NotSpace (b ∷ bs) h = rw (byte_to_hex_lem b h.0) (
  (digit_lem (b / 16) (omega (arith, h.0))).plain,
  ((digit_lem (b % 16) (omega arith)).plain, buffer_to_hex-NotSpace bs h.1),
)

all_hex-buffer_to_hex : (bs : List ℕ) → All IsByte bs → all_hex (buffer_to_hex bs) ≡ true
unfolding buffer_to_hex all_hex
all_hex-buffer_to_hex [] h = refl
all_hex-buffer_to_hex (b ∷ bs) h =
    rw
      (
        byte_to_hex_lem b h.0,
        all_hex,
        (digit_lem (b / 16) (omega (arith, h.0))).hex,
        (digit_lem (b % 16) (omega arith)).hex,
      )
      (all_hex-buffer_to_hex bs h.1)

length-buffer_to_hex : (bs : List ℕ) → All IsByte bs → length (buffer_to_hex bs) ≡ 2 * length bs
unfolding buffer_to_hex
length-buffer_to_hex [] h = refl
length-buffer_to_hex (b ∷ bs) h =
    rw (byte_to_hex_lem b h.0) (omega (arith, length-buffer_to_hex bs h.1))

hex_pairs-buffer_to_hex : (bs : List ℕ) → All IsByte bs → hex_pairs (buffer_to_hex bs) ≡ bs
unfolding buffer_to_hex hex_pairs
hex_pairs-buffer_to_hex [] h = refl
hex_pairs-buffer_to_hex (b ∷ bs) h =
    let whole : b / 16 * 16 + b % 16 ≡ b = omega arith in
    rw (
      byte_to_hex_lem b h.0,
      hex_pairs,
      (digit_lem (b / 16) (omega (arith, h.0))).value,
      (digit_lem (b % 16) (omega arith)).value,
      whole,
      hex_pairs-buffer_to_hex bs h.1,
    )

-- Bytes that are written in hex read back, and each takes two digits.
pub hex_to_buffer-buffer_to_hex :
    (bs : List ℕ)
    → All IsByte bs
    → (hex_to_buffer (buffer_to_hex bs) ≡ ok bs) × (length (buffer_to_hex bs) ≡ 2 * length bs)
unfolding hex_to_buffer
hex_to_buffer-buffer_to_hex bs h =
    let even : (length (buffer_to_hex bs) % 2 == 0) ≡ true =
      ground (arith, length-buffer_to_hex bs h) in
    (
      rw (
        trim_none (buffer_to_hex bs) (buffer_to_hex-NotSpace bs h),
        even,
        all_hex-buffer_to_hex bs h,
        hex_pairs-buffer_to_hex bs h,
      ),
      length-buffer_to_hex bs h,
    )

-- The letters A to F in lower case.
abbrev pub to_lower : ℕ → ℕ
to_lower c = if within b'A' b'F' c then c + 32 else c

hex_value-lt : (c : ℕ) → is_hex c ≡ true → hex_value c < 16
unfolding is_hex hex_value
hex_value-lt c h = ground arith

hex_digit-hex_value : (c : ℕ) → is_hex c ≡ true → hex_digit (hex_value c) ≡ to_lower c
unfolding is_hex hex_value hex_digit
hex_digit-hex_value c h = ground arith

buffer_to_hex-hex_pairs :
    (s : List ℕ)
    → length s % 2 ≡ 0
    → all_hex s ≡ true
    → All IsByte (hex_pairs s) × (buffer_to_hex (hex_pairs s) ≡ map to_lower s)
unfolding buffer_to_hex hex_pairs all_hex
buffer_to_hex-hex_pairs [] e h = (tt, refl)
buffer_to_hex-hex_pairs (c ∷ []) e h = absurd (omega arith)
buffer_to_hex-hex_pairs (c ∷ d ∷ cs) e h =
    let hc : is_hex c ≡ true = ground arith in
    let hd : is_hex d ≡ true = ground arith in
    let lc = hex_value-lt c hc in
    let ld = hex_value-lt d hd in
    let b = hex_value c * 16 + hex_value d in
    let high : b / 16 ≡ hex_value c = omega arith in
    let low : b % 16 ≡ hex_value d = omega arith in
    let (bytes, ih) = buffer_to_hex-hex_pairs cs (omega arith) (ground arith) in
    (
      (omega arith, bytes),
      rw (
        byte_to_hex_lem b (omega arith),
        high,
        low,
        hex_digit-hex_value c hc,
        hex_digit-hex_value d hd,
        ih,
      ),
    )

-- A text that is accepted has, once trimmed, an even number of digits; its bytes are bytes, and
-- written in hex they are that text in lower case. Any other text is refused.
pub buffer_to_hex-hex_to_buffer :
    (s : List ℕ)
    → ((bs : List ℕ) × (hex_to_buffer s ≡ ok bs)
        × All IsByte bs
        × (buffer_to_hex bs ≡ map to_lower (trim s))
        × (length (trim s) % 2 ≡ 0)
        × (all_hex (trim s) ≡ true))
      ⊎ ((hex_to_buffer s ≡ err odd_length) × (length (trim s) % 2 ≢ 0))
      ⊎ ((hex_to_buffer s ≡ err not_hex) × (all_hex (trim s) ≡ false))
unfolding hex_to_buffer
buffer_to_hex-hex_to_buffer s = elim (Bool-cases (length (trim s) % 2 == 0)) [
  | inr odd ↦ inr (inl (rw odd, ground arith))
  | inl even ↦ elim (Bool-cases (all_hex (trim s))) [
    | inr bad ↦ inr (inr (rw (even, bad), bad))
    | inl good ↦
        let (bytes, same) = buffer_to_hex-hex_pairs (trim s) (ground arith) good in
        inl (hex_pairs (trim s), rw (even, good), bytes, same, ground arith, good)
  ]
]
