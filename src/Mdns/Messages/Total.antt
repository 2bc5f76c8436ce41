-- ===== src/Mdns/Messages/Total.antt =====
-- decodeMdnsMessage ends on every datagram.
use matterbridge.Base.{
  ℕ, zero, suc, ◌+◌, ◌≢◌, Bool, true, false, Option, none, some, List, ltb, length, err, throw_if,
  word,
}
use matterbridge.Mdns.Errors.{message_too_short, out_of_fuel}
use matterbridge.Mdns.Records.Total.{
  Ends, >>=-Ends, decode_dns_name-Ends, read_word-Ends, decode_resource_record-Ends,
}
use matterbridge.Mdns.Messages.{
  decode_question, decode_questions, decode_records, decode_mdns_message,
}

decode_question-Ends : (msg : List ℕ) (offset : ℕ) → Ends (decode_question msg offset)
unfolding decode_question
decode_question-Ends msg offset = >>=-Ends _ _ (decode_dns_name-Ends msg offset) λ qname.
    >>=-Ends _ _ (read_word-Ends msg qname.new_offset)
      λ _. >>=-Ends _ _ (read_word-Ends msg (qname.new_offset + 2)) (λ _. cc)

decode_questions-Ends :
    (count : ℕ) (msg : List ℕ) (offset : ℕ) → Ends (decode_questions count msg offset)
unfolding decode_questions
decode_questions-Ends zero msg offset = cc
decode_questions-Ends (suc count) msg offset =
    >>=-Ends _ _ (decode_question-Ends msg offset)
      λ first. >>=-Ends _ _ (decode_questions-Ends count msg first.1) (λ _. cc)

decode_records-Ends :
    (count : ℕ) (msg : List ℕ) (offset : Option ℕ) → Ends (decode_records count msg offset)
unfolding decode_records
decode_records-Ends zero msg offset = cc
decode_records-Ends (suc count) msg none = cc
decode_records-Ends (suc count) msg (some offset) =
    >>=-Ends _ _ (decode_resource_record-Ends msg offset)
      λ first. >>=-Ends _ _ (decode_records-Ends count msg first.1) (λ _. cc)

-- Decoding ends on every datagram, whatever its counts, lengths and pointers say: the fuel of the
-- model for the strings of a TXT record, one more than its length, never runs out.
pub decode_mdns_message_total : (msg : List ℕ) → decode_mdns_message msg ≢ err out_of_fuel
unfolding decode_mdns_message
decode_mdns_message_total msg = >>=-Ends _ _ (long_enough (ltb (length msg) 12)) λ _.
    >>=-Ends _ _ (decode_questions-Ends (word msg 4) msg 12) λ questions.
      >>=-Ends _ _ (decode_records-Ends (word msg 6) msg (some questions.1)) λ answers.
        >>=-Ends _ _ (decode_records-Ends (word msg 8) msg answers.1) λ authorities.
          >>=-Ends _ _ (decode_records-Ends (word msg 10) msg authorities.1) (λ _. cc)
  where
    long_enough : (short : Bool) → Ends (throw_if short message_too_short)
    long_enough true = cc
    long_enough false = cc
