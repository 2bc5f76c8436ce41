-- ===== src/Mdns/Names/RoundTrip.antt =====
-- decodeDnsName undoes encodeDnsName, for names of ASCII labels.
use matterbridge.Base.{
  ℕ, zero, suc, ◌+◌, ◌≤◌, ◌<◌, bit_and, ◌≡◌, refl, subst, true, false, not, none, List, [], ◌∷◌,
  ◌++◌, append_assoc, append-nil, arith, ◌==◌, ltb_of_le, leb_of_lt, lt→ltb, all_below,
  all_below_sound, length, length-append, All, ok, At, At-byte, At-lt, At-append_le, At-append,
  At-subarray, At-next, At-prefix, join, join-split, split, split, join,
}
use matterbridge.Mdns.Names.{
  decode_labels, decode_dns_name, max_iterations, end_offset, utf8, utf8_bytes, text_length,
  write_byte, encode_label, encode_labels, encode_dns_name,
}

pointer_table : all_below 192 (λ b. not (bit_and b 0xc0 == 0xc0)) ≡ true
unfolding all_below
pointer_table = refl

no_pointer : (len : ℕ) → len < 192 → (bit_and len 0xc0 == 0xc0) ≡ false
no_pointer len h =
    ground (arith, all_below_sound (λ b. not (bit_and b 0xc0 == 0xc0)) 192 len pointer_table h)

abbrev pub IsAscii : ℕ → Type 0
IsAscii c = c < 0x80

-- A label that is not empty, is ASCII, and whose length byte is not read as a pointer.
pub record IsLabel (label : List ℕ) : Type 0 where
  pub ascii : All IsAscii label
  pub not_empty : 0 < length label
  pub short : length label < 192

utf8_bytes_ascii : (s : List ℕ) → All IsAscii s → utf8_bytes s ≡ s
unfolding utf8_bytes utf8
utf8_bytes_ascii [] h = refl
utf8_bytes_ascii (c ∷ cs) h = rw (lt→ltb c 0x80 h.0, utf8_bytes_ascii cs h.1)

text_length_ascii : (s : List ℕ) → All IsAscii s → text_length s ≡ length s
unfolding text_length
text_length_ascii [] h = refl
text_length_ascii (c ∷ cs) h = ground (arith, text_length_ascii cs h.1)

-- The bytes of a name, label by label.
abbrev pub label_bytes : List (List ℕ) → List ℕ
label_bytes [] = 0 ∷ []
label_bytes (label ∷ labels) = length label ∷ (label ++ label_bytes labels)

encode_label_ascii :
    (label : List ℕ) → IsLabel label → encode_label label ≡ ok (length label ∷ label)
unfolding encode_label write_byte
encode_label_ascii label v = rw (
  text_length_ascii label v.ascii,
  utf8_bytes_ascii label v.ascii,
  lt→ltb (length label) 256 (omega (arith, v.short)),
)

pub encode_labels_ascii :
    (labels : List (List ℕ)) → All IsLabel labels → encode_labels labels ≡ ok (label_bytes labels)
unfolding encode_labels
encode_labels_ascii [] h = refl
encode_labels_ascii (label ∷ labels) h =
    rw (encode_label_ascii label h.0, encode_labels_ascii labels h.1)

decode_labels_lem :
    (fuel : ℕ) {msg : List ℕ} (off : ℕ) (acc labels : List (List ℕ)) (rest : List ℕ)
    → At msg off (label_bytes labels ++ rest)
    → All IsLabel labels
    → length labels < fuel
    → decode_labels fuel msg off none acc ≡ ok (acc ++ labels, off + length (label_bytes labels))
unfolding decode_labels end_offset
decode_labels_lem zero off acc labels rest a h k = absurd (omega arith)
decode_labels_lem (suc fuel) {msg} off acc [] rest a h k =
    rw (leb_of_lt (length msg) off (At-lt a), At-byte a, append-nil acc)
decode_labels_lem (suc fuel) {msg} off acc (label ∷ labels) rest a (v, vs) k =
    let len = length label in
    let zero_test : (len == 0) ≡ false = ground (arith, v.not_empty) in
    let at_label : At msg (off + 1) (label ++ (label_bytes labels ++ rest)) =
      subst (At msg (off + 1)) (append_assoc label (label_bytes labels) rest) (At-next a) in
    let ih =
      decode_labels_lem fuel (off + 1 + len) (acc ++ label ∷ []) labels rest
        (At-append label _ at_label) vs (omega arith) in
    let total : off + 1 + len + length (label_bytes labels)
        ≡ off + length (label_bytes (label ∷ labels)) =
      omega (arith, length-append {0} label (label_bytes labels)) in
    rw
      (
        leb_of_lt (length msg) off (At-lt a),
        At-byte a,
        zero_test,
        no_pointer len v.short,
        ltb_of_le (length msg) (off + 1 + len) (At-append_le label _ at_label),
        At-subarray label _ at_label,
      )
      (rw (total, append_assoc acc (label ∷ []) labels) at ih)

pub decode_label_bytes :
    (labels : List (List ℕ)) {msg : List ℕ} (off : ℕ) (rest : List ℕ)
    → At msg off (label_bytes labels ++ rest)
    → All IsLabel labels
    → length labels ≤ 1000
    → decode_dns_name msg off
      ≡ ok (record { name = join b'.' labels; new_offset = off + length (label_bytes labels) })
unfolding decode_dns_name
decode_label_bytes labels off rest a h k =
    rw (decode_labels_lem max_iterations off [] labels rest a h (omega arith))

-- A name of at most 1000 ASCII labels, none of them empty or longer than 191 bytes, is encoded.
-- Wherever its bytes stand in a message, the decoder reads the name back and stops behind them.
pub decode-encode_dns_name :
    (name before rest : List ℕ)
    → All IsLabel (split b'.' name)
    → length (split b'.' name) ≤ 1000
    → (bytes : List ℕ) × (encode_dns_name name ≡ ok bytes)
      × (decode_dns_name (before ++ (bytes ++ rest)) (length before)
          ≡ ok (record { name = name; new_offset = length before + length bytes }))
unfolding encode_dns_name
decode-encode_dns_name name before rest h k =
    let labels = split b'.' name in
    let a = At-prefix before (label_bytes labels ++ rest) in
    (
      label_bytes labels,
      encode_labels_ascii labels h,
      rw (decode_label_bytes labels (length before) rest a h k, join-split b'.' name),
    )
