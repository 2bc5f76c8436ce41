-- ===== src/Values/Validity.antt =====
-- packages/utils/src/validate.ts: the tests on values, addresses and versions. The numbers that Values has
-- are finite; promises are not among its values.
pub mod Addresses
pub mod Versions
pub mod Tests
use matterbridge.Base.{
  ℕ, ◌+◌, ◌-◌, ◌*◌, max, Bool, true, false, ◌&&◌, ◌||◌, Option, none, some, List, [], ◌∷◌, ltb,
  ◌==◌, if◌then◌else◌, length, split, trim, within, max, split, within, trim,
}
use matterbridge.Values.{
  Value, undefined, null, boolean, number, string, date, reg_exp, array, object, Fields, end, field,
  items_length,
}

-- `value < min` and `value > max`, where there is a bound.
unfoldable pub is_below : ℕ → Option ℕ → Bool
is_below n none = false
is_below n (some min) = ltb n min

unfoldable pub is_above : ℕ → Option ℕ → Bool
is_above n none = false
is_above n (some max) = ltb max n

unfoldable pub is_between : Option ℕ → Option ℕ → ℕ → Bool
unfolding is_below is_above
is_between min max n = if is_below n min then false else if is_above n max then false else true

unfoldable pub is_valid_number : Value → Option ℕ → Option ℕ → Bool
unfolding is_between
is_valid_number (number n) min max = is_between min max n
is_valid_number _ min max = false

unfoldable pub is_valid_boolean : Value → Bool
is_valid_boolean (boolean b) = true
is_valid_boolean _ = false

unfoldable pub is_valid_string : Value → Option ℕ → Option ℕ → Bool
unfolding is_between
is_valid_string (string text) min_length max_length = is_between min_length max_length (length text)
is_valid_string _ min_length max_length = false

unfoldable pub is_valid_reg_exp : Value → Bool
is_valid_reg_exp (reg_exp source flags last_index) = true
is_valid_reg_exp _ = false

-- `Object.keys(value).length`; dates and expressions have no keys.
unfoldable pub keys_length : Fields → ℕ
keys_length end = 0
keys_length (field name v fields) = 1 + keys_length fields

unfoldable pub is_valid_object : Value → Option ℕ → Option ℕ → Bool
unfolding keys_length is_between
is_valid_object (object fields) min_length max_length =
    is_between min_length max_length (keys_length fields)
is_valid_object (date t) min_length max_length = is_between min_length max_length 0
is_valid_object (reg_exp s f l) min_length max_length = is_between min_length max_length 0
is_valid_object _ min_length max_length = false

unfoldable pub is_valid_array_value : Value → Option ℕ → Option ℕ → Bool
unfolding items_length is_between
is_valid_array_value (array items) min_length max_length =
    is_between min_length max_length (items_length items)
is_valid_array_value _ min_length max_length = false

unfoldable pub is_valid_null : Value → Bool
is_valid_null null = true
is_valid_null _ = false

unfoldable pub is_valid_undefined : Value → Bool
is_valid_undefined undefined = true
is_valid_undefined _ = false

abbrev pub is_digit : ℕ → Bool
is_digit c = within b'0' b'9' c

-- The group of an address: 25[0-5], 2[0-4][0-9], or [01]?[0-9][0-9]?.
unfoldable pub is_octet : List ℕ → Bool
is_octet (a ∷ []) = is_digit a
is_octet (a ∷ b ∷ []) = is_digit a && is_digit b
is_octet (a ∷ b ∷ c ∷ []) =
    (a == b'2' && b == b'5' && within b'0' b'5' c)
    || (a == b'2' && within b'0' b'4' b && is_digit c)
    || (within b'0' b'1' a && is_digit b && is_digit c)
is_octet _ = false

-- The expression as a whole: four groups with dots between them, which are in no group.
unfoldable pub are_octets : List (List ℕ) → Bool
unfolding is_octet
are_octets (a ∷ b ∷ c ∷ d ∷ []) = is_octet a && is_octet b && is_octet c && is_octet d
are_octets _ = false

unfoldable pub is_valid_ipv4_address : List ℕ → Bool
unfolding split are_octets
is_valid_ipv4_address address = are_octets (split b'.' address)

-- `\d+` as the digits that a text begins with, their number and the rest; `value` is of those before.
unfoldable pub digits_from : ℕ → List ℕ → ℕ × List ℕ
digits_from value [] = (value, [])
digits_from value (c ∷ cs) =
    let rest = digits_from (value * 10 + (c - b'0')) cs in
    if is_digit c then rest else (value, c ∷ cs)

unfoldable pub leading_number : List ℕ → Option (ℕ × List ℕ)
unfolding digits_from
leading_number [] = none
leading_number (c ∷ cs) = if is_digit c then some (digits_from 0 (c ∷ cs)) else none

-- `\.`.
unfoldable pub after_dot : List ℕ → Option (List ℕ)
after_dot [] = none
after_dot (c ∷ cs) = if c == b'.' then some cs else none

-- The next part of an expression, on what the one before leaves.
unfoldable pub and_then : {A B : Type 0} → Option A → (A → Option B) → Option B
and_then none next = none
and_then (some a) next = next a

-- The three numbers of /^(\d+)\.(\d+)\.(\d+)/.
unfoldable pub version_numbers : List ℕ → Option (ℕ × ℕ × ℕ)
unfolding leading_number after_dot and_then
version_numbers text = and_then (leading_number text) (λ major.
    and_then (after_dot major.1) (λ minor_text. and_then (leading_number minor_text) (λ minor.
      and_then (after_dot minor.1) (λ patch_text.
        and_then (leading_number patch_text) (λ patch. some (major.0, minor.0, patch.0))))))

unfoldable pub version_code : ℕ × ℕ × ℕ → Option ℕ
version_code (major, minor, patch) =
    if ltb 99 major || ltb 99 minor || ltb 99 patch
    then none
    else some (major * 10000 + minor * 100 + patch)

unfoldable pub parse_version_string : Value → Option ℕ
unfolding trim and_then version_numbers version_code
parse_version_string (string text) = and_then (version_numbers (trim text)) version_code
parse_version_string _ = none
