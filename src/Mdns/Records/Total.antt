-- ===== src/Mdns/Records/Total.antt =====
-- The loop over the strings of a TXT record ends, and so does the decoding of every message.
use matterbridge.Base.{
  ℕ, zero, suc, ◌+◌, ◌<◌, ◌≢◌, Bool, true, false, Option, none, List, [], ◌∷◌, ◌++◌, arith, ◌==◌,
  if◌then◌else◌, Result, ok, err, ◌>>=◌, byte, subarray,
}
use matterbridge.Mdns.Errors.{MdnsError, out_of_fuel}
use matterbridge.Mdns.Buffers.{read_word, read_long}
use matterbridge.Mdns.Names.{decode_labels, decode_dns_name, max_iterations}
use matterbridge.Mdns.Records.{
  decode_txt, read_words, decode_ptr, decode_srv, decode_nsec, decode_rdata, decode_resource_record,
  type_ptr, type_txt, type_srv, type_a, type_aaaa, type_nsec,
}

-- The result does not say that the fuel of the model ran out.
abbrev pub Ends {ℓ} : {A : Type ℓ} → Result MdnsError A → Type ℓ
Ends r = r ≢ err out_of_fuel

pub >>=-Ends {ℓ κ} :
    {A : Type ℓ} {B : Type κ} (r : Result MdnsError A) (f : A → Result MdnsError B)
    → Ends r
    → ((a : A) → Ends (f a))
    → Ends (r >>= f)
>>=-Ends (ok a) f h k = k a
>>=-Ends (err e) f h k = λ bad. h (cc)

decode_labels-Ends :
    (fuel : ℕ) (msg : List ℕ) (offset : ℕ) (jumped : Option ℕ) (acc : List (List ℕ))
    → Ends (decode_labels fuel msg offset jumped acc)
unfolding decode_labels
decode_labels-Ends zero msg offset jumped acc = cc
decode_labels-Ends (suc fuel) msg offset jumped acc = grind (arith, decode_labels-Ends fuel msg)

pub decode_dns_name-Ends : (msg : List ℕ) (offset : ℕ) → Ends (decode_dns_name msg offset)
unfolding decode_dns_name
decode_dns_name-Ends msg offset =
    >>=-Ends _ _ (decode_labels-Ends max_iterations msg offset none []) (λ _. cc)

pub read_word-Ends : (msg : List ℕ) (offset : ℕ) → Ends (read_word msg offset)
unfolding read_word
read_word-Ends msg offset = ground arith

read_long-Ends : (msg : List ℕ) (offset : ℕ) → Ends (read_long msg offset)
unfolding read_long
read_long-Ends msg offset = ground arith

decode_txt-Ends :
    (fuel : ℕ) (msg : List ℕ) (offset end : ℕ) (entries : List (List ℕ))
    → 0 < fuel
    → end < offset + fuel
    → Ends (decode_txt fuel msg offset end entries)
unfolding decode_txt
decode_txt-Ends zero msg offset end entries pos h = absurd (omega arith)
decode_txt-Ends (suc fuel) msg offset end entries pos h = ground (
  arith,
  decode_txt-Ends fuel msg (offset + 1 + byte msg offset) end
      (entries ++ subarray msg (offset + 1) (offset + 1 + byte msg offset) ∷ []),
)

read_words-Ends : (count : ℕ) (bytes : List ℕ) (i : ℕ) → Ends (read_words count bytes i)
unfolding read_words
read_words-Ends zero bytes i = cc
read_words-Ends (suc count) bytes i =
    >>=-Ends _ _ (read_word-Ends bytes i)
      λ w. >>=-Ends _ _ (read_words-Ends count bytes (i + 2)) (λ _. cc)

decode_ptr-Ends : (msg : List ℕ) (offset rdlength : ℕ) → Ends (decode_ptr msg offset rdlength)
unfolding decode_ptr
decode_ptr-Ends msg offset rdlength = >>=-Ends _ _ (decode_dns_name-Ends msg offset) (λ _. cc)

decode_srv-Ends : (msg : List ℕ) (offset : ℕ) → Ends (decode_srv msg offset)
unfolding decode_srv
decode_srv-Ends msg offset = >>=-Ends _ _ (read_word-Ends msg offset) λ _.
    >>=-Ends _ _ (read_word-Ends msg (offset + 2)) λ _.
      >>=-Ends _ _ (read_word-Ends msg (offset + 4))
        λ _. >>=-Ends _ _ (decode_dns_name-Ends msg (offset + 6)) (λ _. cc)

decode_nsec-Ends : (msg : List ℕ) (offset rdlength : ℕ) → Ends (decode_nsec msg offset rdlength)
unfolding decode_nsec
decode_nsec-Ends msg offset rdlength = >>=-Ends _ _ (decode_dns_name-Ends msg offset) (λ _. cc)

if-Ends {ℓ} :
    {A : Type ℓ} (b : Bool) (x y : Result MdnsError A) → Ends x → Ends y → Ends (if b then x else y)
if-Ends true x y h k = h
if-Ends false x y h k = k

decode_rdata-Ends :
    (type rdlength : ℕ) (msg : List ℕ) (offset : ℕ) → Ends (decode_rdata type rdlength msg offset)
unfolding decode_rdata
decode_rdata-Ends type rdlength msg offset =
    if-Ends (type == type_ptr) _ _ (decode_ptr-Ends msg offset rdlength) (
      if-Ends (type == type_txt) _ _ (>>=-Ends _ _ strings (λ _. cc)) (
        if-Ends (type == type_srv) _ _ (decode_srv-Ends msg offset) (
          if-Ends (type == type_a) _ _ (cc) (
            if-Ends (type == type_aaaa) _ _
              (>>=-Ends _ _ (read_words-Ends 8 (subarray msg offset (offset + 16)) 0) (λ _. cc))
              (if-Ends (type == type_nsec) _ _ (decode_nsec-Ends msg offset rdlength) (cc))))))
  where
    strings : Ends (decode_txt (suc rdlength) msg offset (offset + rdlength) [])
    strings =
        decode_txt-Ends (suc rdlength) msg offset (offset + rdlength) [] (omega arith) (omega arith)

pub decode_resource_record-Ends :
    (msg : List ℕ) (offset : ℕ) → Ends (decode_resource_record msg offset)
unfolding decode_resource_record
decode_resource_record-Ends msg offset = >>=-Ends _ _ (decode_dns_name-Ends msg offset) λ n.
    let o = n.new_offset in
    >>=-Ends _ _ (read_word-Ends msg o) λ type. >>=-Ends _ _ (read_word-Ends msg (o + 2)) λ _.
      >>=-Ends _ _ (read_long-Ends msg (o + 4)) λ _.
        >>=-Ends _ _ (read_word-Ends msg (o + 8))
          λ rdlength. >>=-Ends _ _ (decode_rdata-Ends type rdlength msg (o + 10)) (λ _. cc)
