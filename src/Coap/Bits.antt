-- ===== src/Coap/Bits.antt =====
-- The bit fields of the header bytes in arithmetic, checked over all bytes.
use matterbridge.Base.{
  ℕ, ◌+◌, ◌*◌, ◌/◌, ◌%◌, ◌<◌, bit_and, bit_or, ◌≡◌, refl, true, arith, ◌==◌, ==_iff, all_below,
  all_below_sound,
}

and_c0_table : all_below 256 (λ b. bit_and b 0xc0 / 64 == b / 64) ≡ true
unfolding all_below
and_c0_table = refl

and_30_table : all_below 256 (λ b. bit_and b 0x30 / 16 == b / 16 % 4) ≡ true
unfolding all_below
and_30_table = refl

and_0f_table : all_below 256 (λ b. bit_and b 0x0f == b % 16) ≡ true
unfolding all_below
and_0f_table = refl

and_f0_table : all_below 256 (λ b. bit_and b 0xf0 / 16 == b / 16) ≡ true
unfolding all_below
and_f0_table = refl

abbrev packed : ℕ → ℕ
packed b =
    bit_or (bit_or (bit_and (b / 64) 0x03 * 64) (bit_and (b / 16 % 4) 0x03 * 16))
      (bit_and (b % 16) 0x0f)

packed_table : all_below 256 (λ b. packed b == b) ≡ true
unfolding all_below
packed_table = refl

nibbles_table : all_below 256 (λ b. bit_or (b / 16 * 16) (bit_and (b % 16) 0x0f) == b) ≡ true
unfolding all_below
nibbles_table = refl

pub version_bits : (b : ℕ) → b < 256 → bit_and b 0xc0 / 64 ≡ b / 64
version_bits b h = (==_iff _ _).0 (all_below_sound _ 256 b and_c0_table h)

pub type_bits : (b : ℕ) → b < 256 → bit_and b 0x30 / 16 ≡ b / 16 % 4
type_bits b h = (==_iff _ _).0 (all_below_sound _ 256 b and_30_table h)

pub low_nibble : (b : ℕ) → b < 256 → bit_and b 0x0f ≡ b % 16
low_nibble b h = (==_iff _ _).0 (all_below_sound _ 256 b and_0f_table h)

pub high_nibble : (b : ℕ) → b < 256 → bit_and b 0xf0 / 16 ≡ b / 16
high_nibble b h = (==_iff _ _).0 (all_below_sound _ 256 b and_f0_table h)

pub pack_header :
    (v t l : ℕ)
    → v < 4
    → t < 4
    → l < 16
    → bit_or (bit_or (bit_and v 0x03 * 64) (bit_and t 0x03 * 16)) (bit_and l 0x0f)
      ≡ v * 64 + t * 16 + l
pack_header v t l hv ht hl =
    let b = v * 64 + t * 16 + l in
    let ev : b / 64 ≡ v = omega arith in
    let et : b / 16 % 4 ≡ t = omega arith in
    let el : b % 16 ≡ l = omega arith in
    let e : packed b ≡ b = (==_iff _ _).0 (all_below_sound _ 256 b packed_table (omega arith)) in
    rw (ev, et, el) at e

pub pack_nibbles : (d l : ℕ) → d < 16 → l < 16 → bit_or (d * 16) (bit_and l 0x0f) ≡ d * 16 + l
pack_nibbles d l hd hl =
    let b = d * 16 + l in
    let ed : b / 16 ≡ d = omega arith in
    let el : b % 16 ≡ l = omega arith in
    let e : bit_or (b / 16 * 16) (bit_and (b % 16) 0x0f) ≡ b =
      (==_iff _ _).0 (all_below_sound _ 256 b nibbles_table (omega arith)) in
    rw (ed, el) at e
