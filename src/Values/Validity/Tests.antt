-- ===== src/Values/Validity/Tests.antt =====
-- Addresses and versions on concrete texts.
use matterbridge.Base.{
  ℕ, ◌≡◌, refl, ◌↔◌, true, false, some, List, [], ◌∷◌, is_space, split, trim, trim_start, split,
  trim, trim_start, is_space,
}
use matterbridge.Values.{string}
use matterbridge.Values.Validity.{
  is_octet, is_valid_ipv4_address, leading_number, version_numbers, version_code,
  parse_version_string, are_octets, digits_from, after_dot, and_then,
}
use matterbridge.Values.Validity.Addresses.{IsAddress, is_valid_ipv4_address_iff}

-- 192.0.0.1, and 256.0.0.1.
is_valid_ipv4_address_test :
    is_valid_ipv4_address (b'1' ∷ b'9' ∷ b'2' ∷ b'.' ∷ b'0' ∷ b'.' ∷ b'0' ∷ b'.' ∷ b'1' ∷ []) ≡ true
unfolding split is_octet are_octets is_valid_ipv4_address
is_valid_ipv4_address_test = refl

is_valid_ipv4_address_bound_test :
    is_valid_ipv4_address (b'2' ∷ b'5' ∷ b'6' ∷ b'.' ∷ b'0' ∷ b'.' ∷ b'0' ∷ b'.' ∷ b'1' ∷ [])
    ≡ false
unfolding split is_octet are_octets is_valid_ipv4_address
is_valid_ipv4_address_bound_test = refl

-- 6.11.0-raspi, with a space before it.
parse_version_string_test :
    parse_version_string (string (32 ∷ b'6' ∷ b'.' ∷ b'1' ∷ b'1' ∷ b'.' ∷ b'0' ∷ b'-' ∷ b'r' ∷ []))
    ≡ some 61100
unfolding trim_start is_space trim digits_from leading_number after_dot and_then version_numbers
    version_code parse_version_string
parse_version_string_test = refl

abbrev address : List ℕ
address = b'1' ∷ b'0' ∷ b'.' ∷ b'0' ∷ b'.' ∷ b'0' ∷ b'.' ∷ b'2' ∷ b'5' ∷ b'5' ∷ []

is_valid_ipv4_address_iff_example : (is_valid_ipv4_address address ≡ true) ↔ IsAddress address
is_valid_ipv4_address_iff_example = is_valid_ipv4_address_iff address
