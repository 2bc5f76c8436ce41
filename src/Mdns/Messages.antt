-- ===== src/Mdns/Messages.antt =====
-- mdns.ts: decodeMdnsMessage with decodeResourceRecord, and the datagrams of sendQuery and
-- sendResponse. A record's data is kept as values; the source renders them as a text.
pub mod Queries
pub mod Total
pub mod Responses
use matterbridge.Base.{
  ℕ, zero, suc, ◌+◌, ◌/◌, bit_and, bit_or, Bool, false, ◌&&◌, not, Option, none, some, List, [],
  ◌∷◌, ◌++◌, ltb, ◌==◌, if◌then◌else◌, length, Result, ok, err, ◌>>=◌, ◌>>◌, throw_if, word,
  word_bytes,
}
use matterbridge.Mdns.Errors.{MdnsError, message_too_short, no_answers, out_of_range}
use matterbridge.Mdns.Buffers.{read_word, write_word, write_long}
use matterbridge.Mdns.Names.{decode_dns_name, encode_dns_name}
use matterbridge.Mdns.Records.{MdnsRecord, decode_resource_record}

pub record DnsQuestion : Type 0 where
  pub name : List ℕ
  pub type : ℕ
  pub class : ℕ

pub record MdnsMessage : Type 0 where
  pub id : ℕ
  pub qr : ℕ
  pub opcode : ℕ
  pub aa : Bool
  pub tc : Bool
  pub rd : Bool
  pub ra : Bool
  pub z : ℕ
  pub rcode : ℕ
  pub qd_count : ℕ
  pub an_count : ℕ
  pub ns_count : ℕ
  pub ar_count : ℕ
  pub questions : List DnsQuestion
  pub answers : List MdnsRecord
  pub authorities : List MdnsRecord
  pub additionals : List MdnsRecord

-- `Boolean(flags & mask)`.
abbrev has_flag : ℕ → ℕ → Bool
has_flag flags mask = not (bit_and flags mask == 0)

unfoldable pub decode_question : List ℕ → ℕ → Result MdnsError (DnsQuestion × ℕ)
decode_question msg offset = do
  qname ← decode_dns_name msg offset
  qtype ← read_word msg qname.new_offset
  qclass ← read_word msg (qname.new_offset + 2)
  ok (record { name = qname.name; type = qtype; class = qclass }, qname.new_offset + 2 + 2)

-- The loop over the question section: `count` rounds.
unfoldable pub decode_questions : ℕ → List ℕ → ℕ → Result MdnsError (List DnsQuestion × ℕ)
decode_questions zero msg offset = ok ([], offset)
decode_questions (suc count) msg offset = do
  (first, after) ← decode_question msg offset
  (others, end) ← decode_questions count msg after
  ok (first ∷ others, end)

-- The loop over a section of resource records. At the offset NaN, `none`, a read throws.
unfoldable pub decode_records :
    ℕ → List ℕ → Option ℕ → Result MdnsError (List MdnsRecord × Option ℕ)
decode_records zero msg offset = ok ([], offset)
decode_records (suc count) msg none = err out_of_range
decode_records (suc count) msg (some offset) = do
  (first, after) ← decode_resource_record msg offset
  (others, end) ← decode_records count msg after
  ok (first ∷ others, end)

-- The message of the flags word, the counts and the sections.
unfoldable pub mdns_message :
    ℕ
    → ℕ
    → ℕ
    → ℕ
    → ℕ
    → ℕ
    → List DnsQuestion
    → List MdnsRecord
    → List MdnsRecord
    → List MdnsRecord
    → MdnsMessage
mdns_message id flags qd_count an_count ns_count ar_count questions answers authorities
      additionals =
    record {
      id = id;
      qr = bit_and flags 0x8000 / 32768;
      opcode = bit_and flags 0x7800 / 2048;
      aa = has_flag flags 0x0400;
      tc = has_flag flags 0x0200;
      rd = has_flag flags 0x0100;
      ra = has_flag flags 0x0080;
      z = bit_and flags 0x0070 / 16;
      rcode = bit_and flags 0x000f;
      qd_count = qd_count;
      an_count = an_count;
      ns_count = ns_count;
      ar_count = ar_count;
      questions = questions;
      answers = answers;
      authorities = authorities;
      additionals = additionals;
    }

unfoldable pub decode_mdns_message : List ℕ → Result MdnsError MdnsMessage
decode_mdns_message msg = do
  throw_if (ltb (length msg) 12) message_too_short
  (questions, after_questions) ← decode_questions (word msg 4) msg 12
  (answers, after_answers) ← decode_records (word msg 6) msg (some after_questions)
  (authorities, after_authorities) ← decode_records (word msg 8) msg after_answers
  (additionals, end) ← decode_records (word msg 10) msg after_authorities
  ok (
      mdns_message (word msg 0) (word msg 2) (word msg 4) (word msg 6) (word msg 8) (word msg 10)
        questions answers authorities additionals)

-- isMdns, isMdnsQuery and isMdnsResponse.
unfoldable pub is_mdns : List ℕ → Bool
is_mdns msg = if ltb (length msg) 12 then false else word msg 0 == 0

unfoldable pub is_mdns_query : List ℕ → Bool
is_mdns_query msg =
    if ltb (length msg) 12
    then false
    else word msg 0 == 0 && bit_and (word msg 2) 0x8000 / 32768 == 0

unfoldable pub is_mdns_response : List ℕ → Bool
is_mdns_response msg =
    if ltb (length msg) 12
    then false
    else word msg 0 == 0 && bit_and (word msg 2) 0x8000 / 32768 == 1

-- A question of sendQuery.
pub record Query : Type 0 where
  pub name : List ℕ
  pub type : ℕ
  pub class : ℕ
  pub unicast_response : Bool

-- DnsClassFlag.QU asks for a unicast response.
unfoldable pub query_class : Query → ℕ
query_class q = if q.unicast_response then bit_or q.class 0x8000 else q.class

unfoldable pub encode_query : Query → Result MdnsError (List ℕ)
encode_query q = do
  qname ← encode_dns_name q.name
  qtype ← write_word q.type
  qclass ← write_word (query_class q)
  ok (qname ++ (qtype ++ qclass))

unfoldable pub encode_queries : List Query → Result MdnsError (List ℕ)
encode_queries [] = ok []
encode_queries (q ∷ qs) = do
  first ← encode_query q
  others ← encode_queries qs
  ok (first ++ others)

-- The datagram of sendQuery.
unfoldable pub send_query : List Query → Result MdnsError (List ℕ)
send_query questions = do
  count ← write_word (length questions)
  encoded ← encode_queries questions
  ok (
      word_bytes 0
      ++ (word_bytes 0 ++ (count ++ (word_bytes 0 ++ (word_bytes 0 ++ (word_bytes 0 ++ encoded))))))

-- An answer of sendResponse.
pub record Answer : Type 0 where
  pub name : List ℕ
  pub rtype : ℕ
  pub rclass : ℕ
  pub ttl : ℕ
  pub rdata : List ℕ

unfoldable pub encode_answer : Answer → Result MdnsError (List ℕ)
encode_answer a = do
  aname ← encode_dns_name a.name
  rtype ← write_word a.rtype
  rclass ← write_word a.rclass
  ttl ← write_long a.ttl
  rdlength ← write_word (length a.rdata)
  ok (aname ++ (rtype ++ (rclass ++ (ttl ++ (rdlength ++ a.rdata)))))

unfoldable pub encode_answers : List Answer → Result MdnsError (List ℕ)
encode_answers [] = ok []
encode_answers (a ∷ as') = do
  first ← encode_answer a
  others ← encode_answers as'
  ok (first ++ others)

-- The datagram of sendResponse: the flags are QR and AA.
unfoldable pub send_response : List Answer → Result MdnsError (List ℕ)
send_response answers = do
  throw_if (length answers == 0) no_answers
  count ← write_word (length answers)
  encoded ← encode_answers answers
  ok (
      word_bytes 0
      ++ (word_bytes 0x8400
          ++ (word_bytes 0 ++ (count ++ (word_bytes 0 ++ (word_bytes 0 ++ encoded))))))
