-- ===== src/Mdns/Records/Rdata.antt =====
-- mdns.ts: encodeTxtRdata and encodeSrvRdata, and the decoder on their bytes.
use matterbridge.Base.{
  ℕ, zero, suc, ◌+◌, ◌≤◌, ◌<◌, ◌≡◌, refl, ap, subst, ◌∙◌, false, some, List, [], ◌∷◌, ◌++◌, map,
  append_assoc, append-nil, arith, ltb, ◌==◌, ltb_of_le, lt→ltb, length, length-append, All, Result,
  ok, ◌>>=◌, ◌>>◌, throw_if, word_bytes, At, At-byte, At-lt, At-append, At-subarray, At-next,
}
use matterbridge.Mdns.Errors.{MdnsError, entry_too_long}
use matterbridge.Mdns.Buffers.{write_word, read_word_lem}
use matterbridge.Mdns.Names.{encode_dns_name, utf8_bytes}
use matterbridge.Mdns.Names.Carried.{IsName, name_bytes, encode_dns_name_fits, decode_name_bytes}
use matterbridge.Mdns.Records.{
  RecordData, ptr, txt, srv, raw, decode_txt, decode_ptr, decode_srv, decode_rdata, type_ptr,
  type_txt, type_srv, type_a, type_aaaa, type_nsec,
}

unfoldable pub encode_txt_entry : List ℕ → Result MdnsError (List ℕ)
encode_txt_entry entry = do
  let value = utf8_bytes entry
  throw_if (ltb 255 (length value)) entry_too_long
  ok (length value ∷ value)

unfoldable pub encode_txt_rdata : List (List ℕ) → Result MdnsError (List ℕ)
encode_txt_rdata [] = ok []
encode_txt_rdata (entry ∷ entries) = do
  first ← encode_txt_entry entry
  rest ← encode_txt_rdata entries
  ok (first ++ rest)

unfoldable pub encode_srv_rdata : ℕ → ℕ → ℕ → List ℕ → Result MdnsError (List ℕ)
encode_srv_rdata priority weight port target = do
  p ← write_word priority
  w ← write_word weight
  o ← write_word port
  t ← encode_dns_name target
  ok (p ++ (w ++ (o ++ t)))

abbrev pub TxtFits : List ℕ → Type 0
TxtFits entry = length (utf8_bytes entry) ≤ 255

abbrev pub txt_bytes : List (List ℕ) → List ℕ
txt_bytes [] = []
txt_bytes (entry ∷ entries) = length (utf8_bytes entry) ∷ (utf8_bytes entry ++ txt_bytes entries)

pub encode_txt_rdata_fits :
    (entries : List (List ℕ))
    → All TxtFits entries
    → encode_txt_rdata entries ≡ ok (txt_bytes entries)
unfolding encode_txt_rdata encode_txt_entry
encode_txt_rdata_fits [] h = refl
encode_txt_rdata_fits (entry ∷ entries) h =
    rw (ltb_of_le 255 (length (utf8_bytes entry)) h.0, encode_txt_rdata_fits entries h.1)

decode_txt_lem :
    (fuel : ℕ) {msg : List ℕ} (off end : ℕ) (acc entries : List (List ℕ)) (rest : List ℕ)
    → At msg off (txt_bytes entries ++ rest)
    → off + length (txt_bytes entries) ≡ end
    → length (txt_bytes entries) < fuel
    → decode_txt fuel msg off end acc ≡ ok (acc ++ map utf8_bytes entries, some end)
unfolding decode_txt
decode_txt_lem zero off end acc entries rest a e h = absurd (omega arith)
decode_txt_lem (suc fuel) off end acc [] rest a e h =
    let same : off ≡ end = omega arith in rw (ltb_of_le off end (omega arith), append-nil acc, same)
decode_txt_lem (suc fuel) {msg} off end acc (entry ∷ entries) rest a e h =
    let value = utf8_bytes entry in
    let others = txt_bytes entries in
    let both = length-append {0} value others in
    let at_value : At msg (off + 1) (value ++ (others ++ rest)) =
      subst (At msg (off + 1)) (append_assoc value others rest) (At-next a) in
    let ih =
      decode_txt_lem fuel (off + 1 + length value) end (acc ++ value ∷ []) entries rest
        (At-append value _ at_value) (omega (arith, both)) (omega (arith, both)) in
    rw
      (
        lt→ltb off end (omega arith),
        lt→ltb off (length msg) (At-lt a),
        At-byte a,
        At-subarray value _ at_value,
      )
      (rw (append_assoc acc (value ∷ []) (map utf8_bytes entries)) at ih)

-- The data of a record that is sent: a name, texts, a service, or the bytes of another type.
pub data SentData : Type 0 where
  send_ptr : (name : List ℕ) → SentData
  send_txt : (entries : List (List ℕ)) → SentData
  send_srv : (priority weight port : ℕ) → (target : List ℕ) → SentData
  send_raw : (type : ℕ) → (bytes : List ℕ) → SentData

abbrev pub sent_type : SentData → ℕ
sent_type (send_ptr name) = type_ptr
sent_type (send_txt entries) = type_txt
sent_type (send_srv priority weight port target) = type_srv
sent_type (send_raw type bytes) = type

-- The source's encoder for each kind of data.
abbrev pub encode_rdata : SentData → Result MdnsError (List ℕ)
encode_rdata (send_ptr name) = encode_dns_name name
encode_rdata (send_txt entries) = encode_txt_rdata entries
encode_rdata (send_srv priority weight port target) = encode_srv_rdata priority weight port target
encode_rdata (send_raw type bytes) = ok bytes

abbrev pub rdata_bytes : SentData → List ℕ
rdata_bytes (send_ptr name) = name_bytes name
rdata_bytes (send_txt entries) = txt_bytes entries
rdata_bytes (send_srv priority weight port target) =
    word_bytes priority ++ (word_bytes weight ++ (word_bytes port ++ name_bytes target))
rdata_bytes (send_raw type bytes) = bytes

-- What the receiver reads.
abbrev pub seen_data : SentData → RecordData
seen_data (send_ptr name) = ptr name
seen_data (send_txt entries) = txt (map utf8_bytes entries)
seen_data (send_srv priority weight port target) = srv priority weight port target
seen_data (send_raw type bytes) = raw bytes

-- A type that the decoder has no reader for.
pub record IsOther (type : ℕ) : Type 0 where
  pub no_ptr : (type == type_ptr) ≡ false
  pub no_txt : (type == type_txt) ≡ false
  pub no_srv : (type == type_srv) ≡ false
  pub no_a : (type == type_a) ≡ false
  pub no_aaaa : (type == type_aaaa) ≡ false
  pub no_nsec : (type == type_nsec) ≡ false

abbrev pub DataFits : SentData → Type 0
DataFits (send_ptr name) = IsName name
DataFits (send_txt entries) = All TxtFits entries
DataFits (send_srv priority weight port target) =
    (priority < 65536) × (weight < 65536) × (port < 65536) × IsName target
DataFits (send_raw type bytes) = IsOther type

pub encode_rdata_fits : (d : SentData) → DataFits d → encode_rdata d ≡ ok (rdata_bytes d)
unfolding encode_srv_rdata write_word
encode_rdata_fits (send_ptr name) h = encode_dns_name_fits name h
encode_rdata_fits (send_txt entries) h = encode_txt_rdata_fits entries h
encode_rdata_fits (send_srv priority weight port target) h = rw (
  lt→ltb priority 65536 h.0,
  lt→ltb weight 65536 h.1,
  lt→ltb port 65536 h.2,
  encode_dns_name_fits target h.3,
)
encode_rdata_fits (send_raw type bytes) h = refl

decode_srv_lem :
    (priority weight port : ℕ) (target : List ℕ) {msg : List ℕ} (off : ℕ) (rest : List ℕ)
    → At msg off (rdata_bytes (send_srv priority weight port target) ++ rest)
    → IsName target
    → decode_srv msg off
      ≡ ok (
        srv priority weight port target,
        some (off + length (rdata_bytes (send_srv priority weight port target))),
      )
unfolding decode_srv
decode_srv_lem priority weight port target {msg} off rest a v =
    let at_weight = At-append (word_bytes priority) _ a in
    let at_port = At-append (word_bytes weight) _ at_weight in
    let at_target = At-append (word_bytes port) _ at_port in
    let off4 : off + 2 + 2 ≡ off + 4 = omega arith in
    let off6 : off + 4 + 2 ≡ off + 6 = omega arith in
    let total : off + suc (suc (suc (suc (suc (suc (length (name_bytes target)))))))
        ≡ off + 6 + length (name_bytes target) =
      omega arith in
    rw (
      read_word_lem priority _ a,
      read_word_lem weight _ at_weight,
      read_word_lem port _
          (subst (λ o. At msg o (word_bytes port ++ (name_bytes target ++ rest))) off4 at_port),
      decode_name_bytes target (off + 6) rest
          (subst (λ o. At msg o (name_bytes target ++ rest)) (ap (λ (o : ℕ). o + 2) off4 ∙ off6)
            at_target)
          v,
      total,
    )

pub decode_rdata_lem :
    (d : SentData) {msg : List ℕ} (off : ℕ) (rest : List ℕ)
    → At msg off (rdata_bytes d ++ rest)
    → DataFits d
    → decode_rdata (sent_type d) (length (rdata_bytes d)) msg off
      ≡ ok (seen_data d, some (off + length (rdata_bytes d)))
unfolding decode_rdata decode_ptr
decode_rdata_lem (send_ptr name) off rest a h = rw (decode_name_bytes name off rest a h)
decode_rdata_lem (send_txt entries) off rest a h = rw (
    decode_txt_lem (suc (length (txt_bytes entries))) off (off + length (txt_bytes entries)) []
      entries rest a refl (omega arith))
decode_rdata_lem (send_srv priority weight port target) off rest a h =
    decode_srv_lem priority weight port target off rest a h.3
decode_rdata_lem (send_raw type bytes) off rest a h =
    rw (h.no_ptr, h.no_txt, h.no_srv, h.no_a, h.no_aaaa, h.no_nsec, At-subarray bytes rest a)
