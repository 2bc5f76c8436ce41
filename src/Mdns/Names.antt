-- ===== src/Mdns/Names.antt =====
-- mdns.ts: decodeDnsName and encodeDnsName. A name to encode is a list of code points; a decoded
-- name is the list of its UTF-8 bytes.
pub mod RoundTrip
pub mod Decoding
pub mod Carried
use matterbridge.Base.{
  ℕ, zero, suc, ◌+◌, ◌*◌, ◌/◌, ◌%◌, bit_and, ◌&&◌, Option, none, some, List, [], ◌∷◌, ◌++◌, ltb,
  leb, ◌==◌, if◌then◌else◌, length, Result, ok, err, ◌>>=◌, byte, subarray, join, split, split,
  join,
}
use matterbridge.Mdns.Errors.{
  MdnsError, too_many_iterations, offset_exceeds, incomplete_pointer, label_exceeds, out_of_range,
}

-- `jumped ? originalOffset : offset`, where the original offset is set by the first jump only.
unfoldable pub end_offset : Option ℕ → ℕ → ℕ
end_offset none offset = offset
end_offset (some original) offset = original

-- `((len & 0x3f) << 8) | next`: the low byte of the shifted part is 0, so that `|` adds.
unfoldable pub pointer_target : ℕ → ℕ → ℕ
pointer_target len next = bit_and len 0x3f * 256 + next

-- The loop of decodeDnsName. Its fuel is the source's own guard, `iterations++ > 1000`.
unfoldable pub decode_labels :
    ℕ → List ℕ → ℕ → Option ℕ → List (List ℕ) → Result MdnsError (List (List ℕ) × ℕ)
decode_labels zero msg offset jumped labels = err too_many_iterations
decode_labels (suc fuel) msg offset jumped labels =
    let len = byte msg offset in
    let follow =
      decode_labels fuel msg (pointer_target len (byte msg (offset + 1)))
        (some (end_offset jumped (offset + 2))) labels in
    let next =
      decode_labels fuel msg (offset + 1 + len) jumped
        (labels ++ subarray msg (offset + 1) (offset + 1 + len) ∷ []) in
    if leb (length msg) offset
    then err offset_exceeds
    else if len == 0
    then ok (labels, end_offset jumped (offset + 1))
    else if bit_and len 0xc0 == 0xc0
    then (if leb (length msg) (offset + 1) then err incomplete_pointer else follow)
    else if ltb (length msg) (offset + 1 + len)
    then err label_exceeds
    else next

abbrev pub max_iterations : ℕ
max_iterations = 1001

pub record DnsName : Type 0 where
  pub name : List ℕ
  pub new_offset : ℕ

unfoldable pub decode_dns_name : List ℕ → ℕ → Result MdnsError DnsName
decode_dns_name msg offset = do
  (labels, new_offset) ← decode_labels max_iterations msg offset none []
  ok (record { name = join b'.' labels; new_offset = new_offset })

-- `Buffer.from(text)`: the UTF-8 bytes of a code point; a surrogate that is no part of a pair is
-- replaced by U+FFFD.
unfoldable pub utf8 : ℕ → List ℕ
utf8 c =
    if ltb c 0x80
    then c ∷ []
    else if ltb c 0x800
    then (0xc0 + c / 64) ∷ (0x80 + c % 64) ∷ []
    else if leb 0xd800 c && ltb c 0xe000
    then 0xef ∷ 0xbf ∷ 0xbd ∷ []
    else if ltb c 0x10000
    then (0xe0 + c / 4096) ∷ (0x80 + c / 64 % 64) ∷ (0x80 + c % 64) ∷ []
    else (0xf0 + c / 262144) ∷ (0x80 + c / 4096 % 64) ∷ (0x80 + c / 64 % 64) ∷ (0x80 + c % 64) ∷ []

unfoldable pub utf8_bytes : List ℕ → List ℕ
utf8_bytes [] = []
utf8_bytes (c ∷ cs) = utf8 c ++ utf8_bytes cs

-- `text.length` counts UTF-16 code units.
unfoldable pub text_length : List ℕ → ℕ
text_length [] = 0
text_length (c ∷ cs) = (if ltb c 0x10000 then 1 else 2) + text_length cs

-- `writeUInt8`.
unfoldable pub write_byte : ℕ → Result MdnsError (List ℕ)
write_byte n = if ltb n 256 then ok (n ∷ []) else err out_of_range

unfoldable pub encode_label : List ℕ → Result MdnsError (List ℕ)
encode_label label = do len ← write_byte (text_length label); ok (len ++ utf8_bytes label)

unfoldable pub encode_labels : List (List ℕ) → Result MdnsError (List ℕ)
encode_labels [] = ok (0 ∷ [])
encode_labels (label ∷ labels) = do
  first ← encode_label label
  rest ← encode_labels labels
  ok (first ++ rest)

unfoldable pub encode_dns_name : List ℕ → Result MdnsError (List ℕ)
encode_dns_name name = encode_labels (split b'.' name)
