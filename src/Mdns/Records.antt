-- ===== src/Mdns/Records.antt =====
-- mdns.ts: decodeResourceRecord. An offset behind a record is `none` where the source computes NaN.
pub mod Total
pub mod Rdata
use matterbridge.Base.{
  ℕ, zero, suc, ◌+◌, ◌*◌, bit_and, Option, none, some, List, [], ◌∷◌, ◌++◌, ltb, ◌==◌,
  if◌then◌else◌, length, Result, ok, err, ◌>>=◌, byte, subarray,
}
use matterbridge.Mdns.Errors.{MdnsError, out_of_range, out_of_fuel}
use matterbridge.Mdns.Buffers.{read_word, read_long}
use matterbridge.Mdns.Names.{decode_dns_name}

-- The members of DnsRecordType that the decoder tells apart.
abbrev pub type_a : ℕ
type_a = 1

abbrev pub type_ptr : ℕ
type_ptr = 12

abbrev pub type_txt : ℕ
type_txt = 16

abbrev pub type_aaaa : ℕ
type_aaaa = 28

abbrev pub type_srv : ℕ
type_srv = 33

abbrev pub type_nsec : ℕ
type_nsec = 47

pub data RecordData : Type 0 where
  ptr : List ℕ → RecordData
  txt : List (List ℕ) → RecordData
  srv : (priority weight port : ℕ) → (target : List ℕ) → RecordData
  address : List ℕ → RecordData
  address6 : List ℕ → RecordData
  nsec : (next_domain : List ℕ) → (types : List ℕ) → RecordData
  raw : List ℕ → RecordData

pub record MdnsRecord : Type 0 where
  pub name : List ℕ
  pub type : ℕ
  pub class : ℕ
  pub ttl : ℕ
  pub rdata : RecordData

-- The loop over the character strings of a TXT record. A length byte beyond the message is
-- undefined: an empty string is pushed, and the offset becomes NaN, which ends the loop.
unfoldable pub decode_txt :
    ℕ → List ℕ → ℕ → ℕ → List (List ℕ) → Result MdnsError (List (List ℕ) × Option ℕ)
decode_txt zero msg offset end entries = err out_of_fuel
decode_txt (suc fuel) msg offset end entries =
    let start = offset + 1 in
    let stop = start + byte msg offset in
    let more = decode_txt fuel msg stop end (entries ++ subarray msg start stop ∷ []) in
    if ltb offset end
    then (if ltb offset (length msg) then more else ok (entries ++ [] ∷ [], none))
    else ok (entries, some offset)

-- The eight words of an IPv6 address, read one after the other.
unfoldable pub read_words : ℕ → List ℕ → ℕ → Result MdnsError (List ℕ)
read_words zero bytes i = ok []
read_words (suc count) bytes i = do
  w ← read_word bytes i
  ws ← read_words count bytes (i + 2)
  ok (w ∷ ws)

abbrev masks : List ℕ
masks = 0x80 ∷ 0x40 ∷ 0x20 ∷ 0x10 ∷ 0x08 ∷ 0x04 ∷ 0x02 ∷ 0x01 ∷ []

-- The type codes of the bits of one octet, from the highest bit on.
unfoldable pub octet_types : ℕ → List ℕ → ℕ → List ℕ
octet_types code [] octet = []
octet_types code (mask ∷ rest) octet =
    let later = octet_types (code + 1) rest octet in
    if bit_and octet mask == 0 then later else code ∷ later

-- What the next byte of the type bit maps is: a window number, the length of a window, or the
-- octet `i` of a window of which `more` octets follow.
pub data BitmapState : Type 0 where
  at_window : BitmapState
  at_length : (window : ℕ) → BitmapState
  at_octet : (window i more : ℕ) → BitmapState

unfoldable pub after_octets : ℕ → ℕ → ℕ → BitmapState
after_octets window i zero = at_window
after_octets window i (suc more) = at_octet window i more

-- The loop over the windows, byte by byte: octets that are missing hold no type.
unfoldable pub bitmap_types : BitmapState → List ℕ → List ℕ
unfolding octet_types after_octets
bitmap_types state [] = []
bitmap_types at_window (b ∷ bs) = bitmap_types (at_length b) bs
bitmap_types (at_length window) (b ∷ bs) = bitmap_types (after_octets window 0 b) bs
bitmap_types (at_octet window i more) (b ∷ bs) =
    octet_types (window * 256 + i * 8) masks b ++ bitmap_types (after_octets window (i + 1) more) bs

unfoldable pub decode_ptr : List ℕ → ℕ → ℕ → Result MdnsError (RecordData × Option ℕ)
decode_ptr msg offset rdlength = do
  target ← decode_dns_name msg offset
  ok (ptr target.name, some (offset + rdlength))

unfoldable pub decode_srv : List ℕ → ℕ → Result MdnsError (RecordData × Option ℕ)
decode_srv msg offset = do
  priority ← read_word msg offset
  weight ← read_word msg (offset + 2)
  port ← read_word msg (offset + 4)
  target ← decode_dns_name msg (offset + 6)
  ok (srv priority weight port target.name, some target.new_offset)

-- The bit maps end at `offset + rdlength`, or nowhere where the name is longer than the record:
-- the source moves to that same offset in both cases.
unfoldable pub decode_nsec : List ℕ → ℕ → ℕ → Result MdnsError (RecordData × Option ℕ)
unfolding bitmap_types
decode_nsec msg offset rdlength = do
  next ← decode_dns_name msg offset
  let bitmap = subarray msg next.new_offset (offset + rdlength)
  ok (nsec next.name (bitmap_types at_window bitmap), some (offset + rdlength))

unfoldable pub decode_rdata : ℕ → ℕ → List ℕ → ℕ → Result MdnsError (RecordData × Option ℕ)
decode_rdata type rdlength msg offset =
    if type == type_ptr
    then decode_ptr msg offset rdlength
    else if type == type_txt
    then (do
      (entries, end) ← decode_txt (suc rdlength) msg offset (offset + rdlength) []
      ok (txt entries, end))
    else if type == type_srv
    then decode_srv msg offset
    else if type == type_a
    then ok (address (subarray msg offset (offset + 4)), some (offset + 4))
    else if type == type_aaaa
    then (do
      words ← read_words 8 (subarray msg offset (offset + 16)) 0
      ok (address6 words, some (offset + 16)))
    else if type == type_nsec
    then decode_nsec msg offset rdlength
    else ok (raw (subarray msg offset (offset + rdlength)), some (offset + rdlength))

unfoldable pub decode_resource_record : List ℕ → ℕ → Result MdnsError (MdnsRecord × Option ℕ)
decode_resource_record msg offset = do
  n ← decode_dns_name msg offset
  let o = n.new_offset
  type ← read_word msg o
  rrclass ← read_word msg (o + 2)
  ttl ← read_long msg (o + 4)
  rdlength ← read_word msg (o + 8)
  (rdata, end) ← decode_rdata type rdlength msg (o + 10)
  ok (record { name = n.name; type = type; class = rrclass; ttl = ttl; rdata = rdata }, end)
