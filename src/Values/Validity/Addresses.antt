-- ===== src/Values/Validity/Addresses.antt =====
-- validate.ts: which texts are addresses, by the values of their parts.
use matterbridge.Base.{
  ℕ, ◌+◌, ◌-◌, ◌*◌, ◌≤◌, ◌≡◌, refl, sym, ap, subst, ◌∙◌, ◌≢◌, ◌↔◌, true, List, [], ◌∷◌, arith,
  length, All, join, join-split, split, split-join, split, join, split-join,
}
use matterbridge.Values.Validity.{is_digit, is_octet, are_octets, is_valid_ipv4_address}

-- The value of a text of decimal digits.
abbrev pub decimal_from : ℕ → List ℕ → ℕ
decimal_from value [] = value
decimal_from value (c ∷ cs) = decimal_from (value * 10 + (c - b'0')) cs

-- One to three digits, whose value is at most 255.
abbrev pub IsByteText : List ℕ → Type 0
IsByteText s =
    All (λ c. is_digit c ≡ true) s × (1 ≤ length s) × (length s ≤ 3) × (decimal_from 0 s ≤ 255)

is_octet_iff : (s : List ℕ) → (is_octet s ≡ true) ↔ IsByteText s
unfolding is_octet
is_octet_iff [] = ground arith
is_octet_iff (a ∷ []) = ground arith
is_octet_iff (a ∷ b ∷ []) = ground arith
is_octet_iff (a ∷ b ∷ c ∷ []) = ground arith
is_octet_iff (a ∷ b ∷ c ∷ d ∷ s) = ground arith

are_octets_iff :
    (parts : List (List ℕ))
    → (are_octets parts ≡ true) ↔ ((length parts ≡ 4) × All IsByteText parts)
unfolding are_octets
are_octets_iff [] = ground arith
are_octets_iff (a ∷ []) = ground arith
are_octets_iff (a ∷ b ∷ []) = ground arith
are_octets_iff (a ∷ b ∷ c ∷ []) = ground arith
are_octets_iff (a ∷ b ∷ c ∷ d ∷ []) =
    let (a_only, a_if) = is_octet_iff a in
    let (b_only, b_if) = is_octet_iff b in
    let (c_only, c_if) = is_octet_iff c in
    let (d_only, d_if) = is_octet_iff d in
    (
      λ h. (
        refl,
        (
          a_only (ground (arith, h)),
          (
            b_only (ground (arith, h)),
            (c_only (ground (arith, h)), (d_only (ground (arith, h)), tt)),
          ),
        ),
      ),
      λ h. rw (a_if h.1.0, b_if h.1.1.0, c_if h.1.1.1.0, d_if h.1.1.1.1.0) refl,
    )
are_octets_iff (a ∷ b ∷ c ∷ d ∷ e ∷ parts) = ground arith

no_dot : (s : List ℕ) → All (λ c. is_digit c ≡ true) s → All (λ c. c ≢ b'.') s
no_dot [] h = tt
no_dot (c ∷ cs) h = ((λ e. ground (arith, h.0, e)), no_dot cs h.1)

no_dots : (parts : List (List ℕ)) → All IsByteText parts → All (All (λ c. c ≢ b'.')) parts
no_dots [] h = tt
no_dots (s ∷ parts) h = (no_dot s h.0.0, no_dots parts h.1)

-- A text that is four parts with dots between them.
abbrev pub IsAddress : List ℕ → Type 0
IsAddress address =
    (parts : List (List ℕ)) × (length parts ≡ 4)
    × All IsByteText parts
    × (join b'.' parts ≡ address)

split_of :
    (address : List ℕ) (parts : List (List ℕ))
    → length parts ≡ 4
    → All IsByteText parts
    → join b'.' parts ≡ address
    → split b'.' address ≡ parts
split_of address [] n h e = absurd (ground (arith, n))
split_of address (s ∷ parts) n h e =
    ap (split b'.') (sym e) ∙ split-join b'.' s parts (no_dots (s ∷ parts) h)

-- A text is a valid IPv4 address exactly if it is four parts with dots between them, each of one to
-- three decimal digits with a value of at most 255.
pub is_valid_ipv4_address_iff :
    (address : List ℕ) → (is_valid_ipv4_address address ≡ true) ↔ IsAddress address
unfolding is_valid_ipv4_address
is_valid_ipv4_address_iff address =
    let octets = are_octets_iff (split b'.' address) in
    (
      λ h. (split b'.' address, (octets.0 h).0, (octets.0 h).1, join-split b'.' address),
      λ h. octets.1 (
          subst (λ parts. (length parts ≡ 4) × All IsByteText parts)
            (sym (split_of address h.0 h.1 h.2 h.3)) (h.1, h.2)),
    )
