-- ===== src/Hex.antt =====
-- packages/utils/src/hex.ts: bufferToHex and hexToBuffer. Texts are lists of code units. The
-- TypeErrors on arguments of another type have no counterpart here.
pub mod Laws
pub mod Tests
use matterbridge.Base.{
  ℕ, ◌+◌, ◌-◌, ◌*◌, ◌/◌, ◌%◌, Bool, true, ◌&&◌, ◌||◌, not, List, [], ◌∷◌, ◌++◌, ltb, leb, ◌==◌,
  if◌then◌else◌, length, Result, ok, ◌>>◌, throw_if, within, trim,
}

pub data HexError : Type 0 where
  odd_length not_hex : HexError

-- A digit of `toString(16)`.
unfoldable pub hex_digit : ℕ → ℕ
hex_digit d = if ltb d 10 then b'0' + d else b'a' + (d - 10)

-- `byte.toString(16).padStart(2, '0')`, for a byte.
unfoldable pub byte_to_hex : ℕ → List ℕ
unfolding hex_digit
byte_to_hex b =
    if ltb b 16 then b'0' ∷ hex_digit b ∷ [] else hex_digit (b / 16) ∷ hex_digit (b % 16) ∷ []

unfoldable pub buffer_to_hex : List ℕ → List ℕ
buffer_to_hex [] = []
buffer_to_hex (b ∷ bs) = byte_to_hex b ++ buffer_to_hex bs

-- The class [0-9a-fA-F].
unfoldable pub is_hex : ℕ → Bool
is_hex c = within b'0' b'9' c || within b'a' b'f' c || within b'A' b'F' c

unfoldable pub all_hex : List ℕ → Bool
all_hex [] = true
all_hex (c ∷ cs) = is_hex c && all_hex cs

-- The value of one hex digit, as `parseInt(_, 16)` reads it.
unfoldable pub hex_value : ℕ → ℕ
hex_value c = if leb c b'9' then c - b'0' else if leb c b'F' then c - b'A' + 10 else c - b'a' + 10

-- The loop over the pairs of digits. The text has even length here.
unfoldable pub hex_pairs : List ℕ → List ℕ
hex_pairs [] = []
hex_pairs (c ∷ []) = []
hex_pairs (c ∷ d ∷ cs) = (hex_value c * 16 + hex_value d) ∷ hex_pairs cs

unfoldable pub hex_to_buffer : List ℕ → Result HexError (List ℕ)
hex_to_buffer hex = do
  let cleaned = trim hex
  throw_if (not (length cleaned % 2 == 0)) odd_length
  throw_if (not (all_hex cleaned)) not_hex
  ok (hex_pairs cleaned)
