-- ===== src/Mdns/Messages/Responses.antt =====
-- sendResponse and its receiver.
use matterbridge.Base.{
  ℕ, suc, ◌+◌, ◌<◌, ◌≡◌, refl, sym, ap, subst, true, false, some, List, [], ◌∷◌, ◌++◌, map,
  append_assoc, append-nil, arith, ltb, ◌==◌, ltb_of_le, lt→ltb, length, length-append, All, Result,
  ok, ◌>>=◌, word, word_bytes, At, At-append,
}
use matterbridge.Mdns.Errors.{MdnsError}
use matterbridge.Mdns.Buffers.{write_word, write_long, read_word_lem, read_long_lem, long_bytes}
use matterbridge.Mdns.Names.Carried.{IsName, name_bytes, encode_dns_name_fits, decode_name_bytes}
use matterbridge.Mdns.Records.{MdnsRecord, decode_resource_record}
use matterbridge.Mdns.Records.Rdata.{
  SentData, sent_type, encode_rdata, rdata_bytes, seen_data, DataFits, encode_rdata_fits,
  decode_rdata_lem,
}
use matterbridge.Mdns.Messages.{
  Answer, encode_answer, encode_answers, send_response, decode_questions, decode_records,
  mdns_message, decode_mdns_message, is_mdns_response,
}

-- A record that a caller of sendResponse announces.
pub record Announced : Type 0 where
  pub name : List ℕ
  pub class : ℕ
  pub ttl : ℕ
  pub sent : SentData

-- The argument of sendResponse, with the data encoded by the encoder of its type.
abbrev pub answer_of : Announced → Result MdnsError Answer
answer_of r = do
  rdata ← encode_rdata r.sent
  ok (record {
    name = r.name;
    rtype = sent_type r.sent;
    rclass = r.class;
    ttl = r.ttl;
    rdata = rdata;
  })

abbrev pub answers_of : List Announced → Result MdnsError (List Answer)
answers_of [] = ok []
answers_of (r ∷ rs) = do first ← answer_of r; others ← answers_of rs; ok (first ∷ others)

pub record IsAnnounced (r : Announced) : Type 0 where
  pub name_fits : IsName r.name
  pub type_fits : sent_type r.sent < 65536
  pub class_fits : r.class < 65536
  pub ttl_fits : r.ttl < 4294967296
  pub data_fits : DataFits r.sent
  pub length_fits : length (rdata_bytes r.sent) < 65536

abbrev answer : Announced → Answer
answer r = record {
  name = r.name;
  rtype = sent_type r.sent;
  rclass = r.class;
  ttl = r.ttl;
  rdata = rdata_bytes r.sent;
}

answers_of_fits : (rs : List Announced) → All IsAnnounced rs → answers_of rs ≡ ok (map answer rs)
answers_of_fits [] h = refl
answers_of_fits (r ∷ rs) (v, vs) = rw (encode_rdata_fits r.sent v.data_fits, answers_of_fits rs vs)

-- The record that the receiver sees.
abbrev pub seen : Announced → MdnsRecord
seen r = record {
  name = r.name;
  type = sent_type r.sent;
  class = r.class;
  ttl = r.ttl;
  rdata = seen_data r.sent;
}

abbrev record_bytes : Announced → List ℕ
record_bytes r =
    name_bytes r.name
    ++ (word_bytes (sent_type r.sent)
        ++ (word_bytes r.class
            ++ (long_bytes r.ttl
                ++ (word_bytes (length (rdata_bytes r.sent)) ++ rdata_bytes r.sent))))

encode_answer_fits :
    (r : Announced) → IsAnnounced r → encode_answer (answer r) ≡ ok (record_bytes r)
unfolding encode_answer write_word write_long
encode_answer_fits r v = rw (
  encode_dns_name_fits r.name v.name_fits,
  lt→ltb (sent_type r.sent) 65536 v.type_fits,
  lt→ltb r.class 65536 v.class_fits,
  lt→ltb r.ttl 4294967296 v.ttl_fits,
  lt→ltb (length (rdata_bytes r.sent)) 65536 v.length_fits,
)

decode_record_lem :
    (r : Announced) {msg : List ℕ} (off : ℕ) (rest : List ℕ)
    → At msg off (record_bytes r ++ rest)
    → IsAnnounced r
    → decode_resource_record msg off ≡ ok (seen r, some (off + length (record_bytes r)))
unfolding decode_resource_record
decode_record_lem r {msg} off rest a v =
    let name = name_bytes r.name in
    let type = sent_type r.sent in
    let rdata = rdata_bytes r.sent in
    let size = length rdata in
    let o = off + length name in
    let a' : At msg off (
        name
        ++ (word_bytes type
            ++ (word_bytes r.class
                ++ (long_bytes r.ttl ++ (word_bytes size ++ (rdata ++ rest)))))) =
      subst (At msg off) (simp append_assoc) a in
    let at_type = At-append name _ a' in
    let at_class = At-append (word_bytes type) _ at_type in
    let at_ttl = At-append (word_bytes r.class) _ at_class in
    let at_size = At-append (long_bytes r.ttl) _ at_ttl in
    let at_rdata = At-append (word_bytes size) _ at_size in
    let o4 : o + 2 + 2 ≡ o + 4 = omega arith in
    let o8 : o + 2 + 2 + 4 ≡ o + 8 = omega arith in
    let o10 : o + 2 + 2 + 4 + 2 ≡ o + 10 = omega arith in
    let total : off + length (record_bytes r) ≡ o + 10 + size = omega (
      arith,
      length-append {0} name (
          word_bytes type
          ++ (word_bytes r.class ++ (long_bytes r.ttl ++ (word_bytes size ++ rdata)))),
    ) in
    rw (
      decode_name_bytes r.name off _ a' v.name_fits,
      read_word_lem type _ at_type,
      read_word_lem r.class _ at_class,
      read_long_lem r.ttl _ (
          subst (λ k. At msg k (long_bytes r.ttl ++ (word_bytes size ++ (rdata ++ rest)))) o4
            at_ttl),
      read_word_lem size _ (subst (λ k. At msg k (word_bytes size ++ (rdata ++ rest))) o8 at_size),
      decode_rdata_lem r.sent (o + 10) rest (subst (λ k. At msg k (rdata ++ rest)) o10 at_rdata)
          v.data_fits,
      total,
    )

abbrev records_bytes : List Announced → List ℕ
records_bytes [] = []
records_bytes (r ∷ rs) = record_bytes r ++ records_bytes rs

encode_answers_fits :
    (rs : List Announced)
    → All IsAnnounced rs
    → encode_answers (map answer rs) ≡ ok (records_bytes rs)
unfolding encode_answers
encode_answers_fits [] h = refl
encode_answers_fits (r ∷ rs) h = rw (encode_answer_fits r h.0, encode_answers_fits rs h.1)

decode_records_lem :
    (rs : List Announced) {msg : List ℕ} (off : ℕ) (rest : List ℕ)
    → At msg off (records_bytes rs ++ rest)
    → All IsAnnounced rs
    → decode_records (length rs) msg (some off)
      ≡ ok (map seen rs, some (off + length (records_bytes rs)))
unfolding decode_records
decode_records_lem [] off rest a h = let same : off + 0 ≡ off = omega arith in rw same
decode_records_lem (r ∷ rs) {msg} off rest a h =
    let part = record_bytes r in
    let a' = subst (At msg off) (append_assoc part (records_bytes rs) rest) a in
    let total : off + length (records_bytes (r ∷ rs))
        ≡ off + length part + length (records_bytes rs) =
      omega (arith, length-append {0} part (records_bytes rs)) in
    rw (
      decode_record_lem r off _ a' h.0,
      decode_records_lem rs (off + length part) rest (At-append part _ a') h.1,
      total,
    )

abbrev response_bytes : List Announced → List ℕ
response_bytes rs =
    word_bytes 0
    ++ (word_bytes 0x8400
        ++ (word_bytes 0
            ++ (word_bytes (length rs) ++ (word_bytes 0 ++ (word_bytes 0 ++ records_bytes rs)))))

length-answers : (rs : List Announced) → length (map answer rs) ≡ length rs
length-answers [] = refl
length-answers (r ∷ rs) = ap suc (length-answers rs)

-- One to 65535 records, each with a name that the codec carries, with type, class, time to live and
-- length in range, and with a name, texts, a service or bytes of an undecoded type as data, are
-- encoded and sent as one datagram. It is an mDNS response with the QR and AA flags, and decodes to
-- these records as its answers, in order, each with its data read back.
pub decode-send_response :
    (rs : List Announced)
    → All IsAnnounced rs
    → 0 < length rs
    → length rs < 65536
    → (answers : List Answer) × (datagram : List ℕ) × (answers_of rs ≡ ok answers)
      × (send_response answers ≡ ok datagram)
      × (is_mdns_response datagram ≡ true)
      × (decode_mdns_message datagram
          ≡ ok (mdns_message 0 0x8400 0 (length rs) 0 0 [] (map seen rs) [] []))
unfolding send_response write_word decode_mdns_message decode_questions decode_records
    is_mdns_response
decode-send_response rs h pos k =
    let msg = response_bytes rs in
    let at_records : At msg 12 (records_bytes rs ++ []) = record {
      within = omega arith;
      suffix = sym (append-nil (records_bytes rs));
    } in
    let count : word msg 6 ≡ length rs = omega arith in
    let some_answers : (length rs == 0) ≡ false = ground arith in
    let long : ltb (length msg) 12 ≡ false = ltb_of_le (length msg) 12 (omega arith) in
    (
      map answer rs,
      msg,
      answers_of_fits rs h,
      rw (length-answers rs, some_answers, lt→ltb (length rs) 65536 k, encode_answers_fits rs h),
      rw long,
      rw (long, count, decode_records_lem rs 12 [] at_records h),
    )
