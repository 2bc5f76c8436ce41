-- ===== src/Mdns/Messages/Queries.antt =====
-- sendQuery and its receiver.
use matterbridge.Base.{
  ℕ, ◌+◌, ◌<◌, ◌≡◌, refl, sym, subst, true, false, List, [], ◌∷◌, ◌++◌, map, append_assoc,
  append-nil, arith, ltb, ltb_of_le, lt→ltb, length, length-append, All, ok, word, word_bytes, At,
  At-append,
}
use matterbridge.Mdns.Buffers.{write_word, read_word_lem}
use matterbridge.Mdns.Names.Carried.{IsName, name_bytes, encode_dns_name_fits, decode_name_bytes}
use matterbridge.Mdns.Messages.{
  DnsQuestion, Query, query_class, encode_query, encode_queries, send_query, decode_question,
  decode_questions, decode_records, mdns_message, decode_mdns_message, is_mdns_query,
}

pub record IsQuery (q : Query) : Type 0 where
  pub name_fits : IsName q.name
  pub type_fits : q.type < 65536
  pub class_fits : query_class q < 65536

abbrev pub question_bytes : Query → List ℕ
question_bytes q = name_bytes q.name ++ (word_bytes q.type ++ word_bytes (query_class q))

-- The question that the receiver sees: the class with the QU bit.
abbrev pub asked : Query → DnsQuestion
asked q = record { name = q.name; type = q.type; class = query_class q }

encode_query_fits : (q : Query) → IsQuery q → encode_query q ≡ ok (question_bytes q)
unfolding encode_query write_word
encode_query_fits q v = rw (
  encode_dns_name_fits q.name v.name_fits,
  lt→ltb q.type 65536 v.type_fits,
  lt→ltb (query_class q) 65536 v.class_fits,
)

decode_question_lem :
    (q : Query) {msg : List ℕ} (off : ℕ) (rest : List ℕ)
    → At msg off (question_bytes q ++ rest)
    → IsQuery q
    → decode_question msg off ≡ ok (asked q, off + length (question_bytes q))
unfolding decode_question
decode_question_lem q {msg} off rest a v =
    let name = name_bytes q.name in
    let a' : At msg off (name ++ (word_bytes q.type ++ (word_bytes (query_class q) ++ rest))) =
      subst (At msg off) (simp append_assoc) a in
    let at_type = At-append name _ a' in
    let at_class = At-append (word_bytes q.type) _ at_type in
    let total : off + length (question_bytes q) ≡ off + length name + 2 + 2 =
      omega (arith, length-append {0} name (word_bytes q.type ++ word_bytes (query_class q))) in
    rw (
      decode_name_bytes q.name off _ a' v.name_fits,
      read_word_lem q.type _ at_type,
      read_word_lem (query_class q) rest at_class,
      total,
    )

abbrev pub questions_bytes : List Query → List ℕ
questions_bytes [] = []
questions_bytes (q ∷ qs) = question_bytes q ++ questions_bytes qs

encode_queries_fits :
    (qs : List Query) → All IsQuery qs → encode_queries qs ≡ ok (questions_bytes qs)
unfolding encode_queries
encode_queries_fits [] h = refl
encode_queries_fits (q ∷ qs) h = rw (encode_query_fits q h.0, encode_queries_fits qs h.1)

decode_questions_lem :
    (qs : List Query) {msg : List ℕ} (off : ℕ) (rest : List ℕ)
    → At msg off (questions_bytes qs ++ rest)
    → All IsQuery qs
    → decode_questions (length qs) msg off ≡ ok (map asked qs, off + length (questions_bytes qs))
unfolding decode_questions
decode_questions_lem [] off rest a h = let same : off + 0 ≡ off = omega arith in rw same
decode_questions_lem (q ∷ qs) {msg} off rest a h =
    let part = question_bytes q in
    let a' = subst (At msg off) (append_assoc part (questions_bytes qs) rest) a in
    let total : off + length (questions_bytes (q ∷ qs))
        ≡ off + length part + length (questions_bytes qs) =
      omega (arith, length-append {0} part (questions_bytes qs)) in
    rw (
      decode_question_lem q off _ a' h.0,
      decode_questions_lem qs (off + length part) rest (At-append part _ a') h.1,
      total,
    )

abbrev query_bytes : List Query → List ℕ
query_bytes qs =
    word_bytes 0
    ++ (word_bytes 0
        ++ (word_bytes (length qs)
            ++ (word_bytes 0 ++ (word_bytes 0 ++ (word_bytes 0 ++ questions_bytes qs)))))

-- Fewer than 65536 questions, whose names have ASCII labels that fit and whose type and class are 16
-- bit numbers, are sent as one datagram. It is an mDNS query, and decodes to a message with the id 0,
-- the flags 0, these questions in order, and no records.
pub decode-send_query :
    (qs : List Query)
    → All IsQuery qs
    → length qs < 65536
    → (datagram : List ℕ) × (send_query qs ≡ ok datagram)
      × (is_mdns_query datagram ≡ true)
      × (decode_mdns_message datagram
          ≡ ok (mdns_message 0 0 (length qs) 0 0 0 (map asked qs) [] [] []))
unfolding send_query write_word decode_mdns_message decode_records is_mdns_query
decode-send_query qs h k =
    let msg = query_bytes qs in
    let at_questions : At msg 12 (questions_bytes qs ++ []) = record {
      within = omega arith;
      suffix = sym (append-nil (questions_bytes qs));
    } in
    let count : word msg 4 ≡ length qs = omega arith in
    let long : ltb (length msg) 12 ≡ false = ltb_of_le (length msg) 12 (omega arith) in
    (
      msg,
      rw (lt→ltb (length qs) 65536 k, encode_queries_fits qs h),
      rw long,
      rw (long, count, decode_questions_lem qs 12 [] at_questions h),
    )
