-- ===== src/Mdns/Names/Decoding.antt =====
-- decodeDnsName on any message: where it stops, what a pointer loop does, and the length byte that
-- encodeDnsName writes for a label that is not ASCII.
use matterbridge.Base.{
  ℕ, zero, suc, ◌+◌, ◌/◌, ◌%◌, ◌≤◌, ◌<◌, bit_and, ◌≡◌, refl, ap, ◌↔◌, ◌⊎◌, inl, inr, Bool, true,
  false, ◌&&◌, Option, none, some, List, [], ◌∷◌, ◌++◌, arith, ltb, ◌==◌, if◌then◌else◌, leb_of_lt,
  all_below, all_below_sound, length, length-append, All, ok, err, Result-cases, byte, subarray,
  ok-injective,
}
use matterbridge.Mdns.Errors.{too_many_iterations}
use matterbridge.Mdns.Names.{
  DnsName, decode_labels, decode_dns_name, max_iterations, end_offset, pointer_target, utf8,
  utf8_bytes, text_length, write_byte, encode_label,
}
use matterbridge.Mdns.Names.RoundTrip.{IsAscii}

-- Where the name ends: behind the first pointer if there was one, else behind what is read.
abbrev Stops : List ℕ → ℕ → Option ℕ → ℕ → Type 0
Stops msg offset none stop = (offset < stop) × (stop ≤ length msg)
Stops msg offset (some original) stop = stop ≡ original

decode_labels-Stops :
    (fuel : ℕ) (msg : List ℕ) (offset : ℕ) (jumped : Option ℕ) (acc labels : List (List ℕ))
    (stop : ℕ)
    → decode_labels fuel msg offset jumped acc ≡ ok (labels, stop)
    → Stops msg offset jumped stop
unfolding decode_labels end_offset
decode_labels-Stops zero msg offset jumped acc labels stop e = cc
decode_labels-Stops (suc fuel) msg offset none acc labels stop e = ground (
  arith,
  decode_labels-Stops fuel msg (pointer_target (byte msg offset) (byte msg (offset + 1)))
      (some (offset + 2)) acc labels stop,
  decode_labels-Stops fuel msg (offset + 1 + byte msg offset) none
      (acc ++ subarray msg (offset + 1) (offset + 1 + byte msg offset) ∷ []) labels stop,
)
decode_labels-Stops (suc fuel) msg offset (some original) acc labels stop e = ground (
  arith,
  decode_labels-Stops fuel msg (pointer_target (byte msg offset) (byte msg (offset + 1)))
      (some original) acc labels stop,
  decode_labels-Stops fuel msg (offset + 1 + byte msg offset) (some original)
      (acc ++ subarray msg (offset + 1) (offset + 1 + byte msg offset) ∷ []) labels stop,
)

-- A name that is decoded takes at least one byte and ends within the message, wherever its
-- pointers lead.
pub decode_dns_name_stops :
    (msg : List ℕ) (offset : ℕ) {n : DnsName}
    → decode_dns_name msg offset ≡ ok n
    → (offset < n.new_offset) × (n.new_offset ≤ length msg)
unfolding decode_dns_name
decode_dns_name_stops msg offset e =
    elim (Result-cases (decode_labels max_iterations msg offset none [])) [
      | inr (er, f) ↦ absurd (ground arith)
      | inl ((labels, stop), f) ↦
          let s = decode_labels-Stops max_iterations msg offset none [] labels stop f in
          let same = ap (λ (m : DnsName). m.new_offset) (ok-injective (rw f at e)) in
          omega (arith, s, same)
    ]

abbrev pointer_ok : ℕ → Bool
pointer_ok h = bit_and (192 + h) 0xc0 == 0xc0 && bit_and (192 + h) 0x3f == h

pointer_ok_table : all_below 64 pointer_ok ≡ true
unfolding all_below
pointer_ok_table = refl

-- The two bytes at `offset` point to `target`.
abbrev pub PointsTo : List ℕ → ℕ → ℕ → Type 0
PointsTo msg offset target =
    (byte msg offset ≡ 192 + target / 256)
    × (byte msg (offset + 1) ≡ target % 256)
    × (offset + 1 < length msg)
    × (target < 16384)

decode_labels_loop :
    (fuel : ℕ) (msg : List ℕ) (offset : ℕ) (jumped : Option ℕ) (acc : List (List ℕ))
    → PointsTo msg offset offset
    → decode_labels fuel msg offset jumped acc ≡ err too_many_iterations
unfolding decode_labels
decode_labels_loop zero msg offset jumped acc h = refl
decode_labels_loop (suc fuel) msg offset jumped acc h =
    let bits = all_below_sound pointer_ok 64 (offset / 256) pointer_ok_table (omega (arith, h.3)) in
    let target : pointer_target (192 + offset / 256) (offset % 256) ≡ offset =
      unfold pointer_target in ground arith in
    let not_end : (192 + offset / 256 == 0) ≡ false = ground arith in
    let is_pointer : (bit_and (192 + offset / 256) 0xc0 == 0xc0) ≡ true = ground arith in
    rw
      (
        leb_of_lt (length msg) offset (omega (arith, h.2)),
        h.0,
        h.1,
        not_end,
        is_pointer,
        leb_of_lt (length msg) (offset + 1) h.2,
        target,
      )
      (decode_labels_loop fuel msg offset (some (end_offset jumped (offset + 2))) acc h)

-- A pointer to itself does not hang the decoder: the guard on the iterations throws.
pub decode_dns_name_loop :
    (msg : List ℕ) (offset : ℕ)
    → PointsTo msg offset offset
    → decode_dns_name msg offset ≡ err too_many_iterations
unfolding decode_dns_name
decode_dns_name_loop msg offset h = rw (decode_labels_loop max_iterations msg offset none [] h)

abbrev units : ℕ → ℕ
units c = if ltb c 0x10000 then 1 else 2

length-utf8 :
    (c : ℕ)
    → ((c < 0x80) × (length (utf8 c) ≡ units c)) ⊎ ((0x80 ≤ c) × (units c < length (utf8 c)))
unfolding utf8
length-utf8 c = ground arith

text_length-le : (s : List ℕ) → text_length s ≤ length (utf8_bytes s)
unfolding text_length utf8_bytes
text_length-le [] = omega arith
text_length-le (c ∷ cs) =
    omega (arith, length-append {0} (utf8 c) (utf8_bytes cs), text_length-le cs, length-utf8 c)

text_length_eq : (s : List ℕ) → (text_length s ≡ length (utf8_bytes s)) ↔ All IsAscii s
unfolding text_length utf8_bytes
text_length_eq [] = (λ _. tt, λ _. refl)
text_length_eq (c ∷ cs) =
    let (to, from) = text_length_eq cs in
    let both = length-append {0} (utf8 c) (utf8_bytes cs) in
    let rest = text_length-le cs in
    let one = length-utf8 c in
    (
      λ e. (omega (arith, both, rest, one), to (omega (arith, both, rest, one))),
      λ h. omega (arith, both, one, h.0, from h.1),
    )

-- The length byte of an encoded label counts its UTF-16 code units, not the bytes that follow: the
-- two agree exactly for the labels that are ASCII.
pub encode_label-length :
    (label out : List ℕ)
    → encode_label label ≡ ok out
    → (out ≡ text_length label ∷ utf8_bytes label)
      × ((text_length label ≡ length (utf8_bytes label)) ↔ All IsAscii label)
unfolding encode_label write_byte
encode_label-length label out e = (ground arith, text_length_eq label)
