-- ===== src/Mdns/Buffers.antt =====
-- The reads and writes of numbers in a Buffer, which throw a RangeError outside it.
use matterbridge.Base.{
  ℕ, ◌+◌, ◌*◌, ◌/◌, ◌%◌, ◌≡◌, List, ◌++◌, arith, ltb, leb, if◌then◌else◌, le→leb, length, Result,
  ok, err, word, word_bytes, At, At-byte, At-append_le, At-append, At-next,
}
use matterbridge.Mdns.Errors.{MdnsError, out_of_range}

-- `readUInt16BE(offset)`.
unfoldable pub read_word : List ℕ → ℕ → Result MdnsError ℕ
read_word msg offset =
    if leb (offset + 2) (length msg) then ok (word msg offset) else err out_of_range

-- `readUInt32BE(offset)`.
unfoldable pub read_long : List ℕ → ℕ → Result MdnsError ℕ
read_long msg offset =
    if leb (offset + 4) (length msg)
    then ok (word msg offset * 65536 + word msg (offset + 2))
    else err out_of_range

-- `writeUInt16BE(n)` and `writeUInt32BE(n)`.
unfoldable pub write_word : ℕ → Result MdnsError (List ℕ)
write_word n = if ltb n 65536 then ok (word_bytes n) else err out_of_range

unfoldable pub write_long : ℕ → Result MdnsError (List ℕ)
write_long n =
    if ltb n 4294967296
    then ok (word_bytes (n / 65536) ++ word_bytes (n % 65536))
    else err out_of_range

module _ {msg : List ℕ} {offset : ℕ} (n : ℕ) (rest : List ℕ) where
  pub At-word : At msg offset (word_bytes n ++ rest) → word msg offset ≡ n
  At-word a = let high = At-byte a in let low = At-byte (At-next a) in omega (arith, high, low)

  pub read_word_lem : At msg offset (word_bytes n ++ rest) → read_word msg offset ≡ ok n
  unfolding read_word
  read_word_lem a =
      rw (le→leb (offset + 2) (length msg) (At-append_le (word_bytes n) rest a), At-word a)

abbrev pub long_bytes : ℕ → List ℕ
long_bytes n = word_bytes (n / 65536) ++ word_bytes (n % 65536)

module _ {msg : List ℕ} {offset : ℕ} (n : ℕ) (rest : List ℕ) where
  pub read_long_lem : At msg offset (long_bytes n ++ rest) → read_long msg offset ≡ ok n
  unfolding read_long
  read_long_lem a =
      let high = At-word (n / 65536) _ a in
      let low = At-word (n % 65536) rest (At-append (word_bytes (n / 65536)) _ a) in
      let whole : n / 65536 * 65536 + n % 65536 ≡ n = omega arith in
      rw (le→leb (offset + 4) (length msg) (At-append_le (long_bytes n) rest a), high, low, whole)
