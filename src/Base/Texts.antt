-- ===== src/Base/Texts.antt =====
-- Texts as lists of UTF-16 code units, with the string methods that the program calls.
use Prim.Native.Nat.{ℕ}
use mathlib.Core.Path.{◌≡◌, refl, ap, ◌∙◌}
use mathlib.Core.Logic.{◌≢◌}
use mathlib.Core.Bool.{Bool, true, false, ◌&&◌, ◌||◌}
use mathlib.Core.List.{List, [], ◌∷◌, ◌++◌, reverse, reverse-cons, reverse-reverse}
use native.Mathlib.Omega.{arith}
use matterbridge.Base.Tests.{leb, ◌==◌, if◌then◌else◌}
use matterbridge.Base.Lists.{All}

abbrev pub within : ℕ → ℕ → ℕ → Bool
within lo hi c = leb lo c && leb c hi

-- The white space and line terminators that `trim` removes.
unfoldable pub is_space : ℕ → Bool
is_space c =
    within 9 13 c
    || c == 32
    || c == 160
    || c == 0x1680
    || within 0x2000 0x200a c
    || within 0x2028 0x2029 c
    || c == 0x202f
    || c == 0x205f
    || c == 0x3000
    || c == 0xfeff

unfoldable pub trim_start : List ℕ → List ℕ
trim_start [] = []
trim_start (c ∷ cs) = if is_space c then trim_start cs else c ∷ cs

unfoldable pub trim : List ℕ → List ℕ
unfolding trim_start is_space
trim s = reverse (trim_start (reverse (trim_start s)))

abbrev pub NotSpace : ℕ → Type 0
NotSpace c = is_space c ≡ false

trim_start_none : (s : List ℕ) → All NotSpace s → trim_start s ≡ s
unfolding trim_start
trim_start_none [] h = refl
trim_start_none (c ∷ cs) h = rw h.0

All-append {ℓ κ} :
    {A : Type ℓ} (P : A → Type κ) (xs ys : List A) → All P xs → All P ys → All P (xs ++ ys)
All-append P [] ys h k = k
All-append P (x ∷ xs) ys h k = (h.0, All-append P xs ys h.1 k)

pub All-reverse {ℓ κ} : {A : Type ℓ} (P : A → Type κ) (xs : List A) → All P xs → All P (reverse xs)
All-reverse P [] h = h
All-reverse P (x ∷ xs) h =
    rw (reverse-cons x xs) (All-append P (reverse xs) (x ∷ []) (All-reverse P xs h.1) (h.0, tt))

-- A text without white space is left as it is.
pub trim_none : (s : List ℕ) → All NotSpace s → trim s ≡ s
unfolding trim
trim_none s h =
    rw (trim_start_none s h, trim_start_none (reverse s) (All-reverse NotSpace s h))
      (reverse-reverse s)

-- `s.startsWith(p)` and `s.includes(p)`.
unfoldable pub starts_with : List ℕ → List ℕ → Bool
starts_with [] s = true
starts_with (p ∷ ps) [] = false
starts_with (p ∷ ps) (c ∷ cs) = c == p && starts_with ps cs

unfoldable pub includes : List ℕ → List ℕ → Bool
unfolding starts_with
includes p [] = starts_with p []
includes p (c ∷ cs) = starts_with p (c ∷ cs) || includes p cs

abbrev cons_first : ℕ → List (List ℕ) → List (List ℕ)
cons_first c [] = (c ∷ []) ∷ []
cons_first c (part ∷ parts) = (c ∷ part) ∷ parts

-- `s.split(sep)` for a separator of one code unit, and `parts.join(sep)`.
unfoldable pub split : ℕ → List ℕ → List (List ℕ)
split sep [] = [] ∷ []
split sep (c ∷ cs) = let rest = split sep cs in if c == sep then [] ∷ rest else cons_first c rest

unfoldable pub join : ℕ → List (List ℕ) → List ℕ
join sep [] = []
join sep (part ∷ []) = part
join sep (part ∷ next ∷ parts) = part ++ (sep ∷ join sep (next ∷ parts))

split_none : (sep : ℕ) (s : List ℕ) → All (λ c. c ≢ sep) s → split sep s ≡ s ∷ []
unfolding split
split_none sep [] h = refl
split_none sep (c ∷ cs) h = ground (arith, split_none sep cs h.1)

split-append :
    (sep : ℕ) (part rest : List ℕ)
    → All (λ c. c ≢ sep) part
    → split sep (part ++ (sep ∷ rest)) ≡ part ∷ split sep rest
unfolding split
split-append sep [] rest h = ground arith
split-append sep (c ∷ cs) rest h = ground (arith, split-append sep cs rest h.1)

-- Parts that hold no separator come back from their join.
pub split-join :
    (sep : ℕ) (part : List ℕ) (parts : List (List ℕ))
    → All (All (λ c. c ≢ sep)) (part ∷ parts)
    → split sep (join sep (part ∷ parts)) ≡ part ∷ parts
unfolding join
split-join sep part [] h = split_none sep part h.0
split-join sep part (next ∷ parts) h =
    split-append sep part (join sep (next ∷ parts)) h.0
    ∙ ap (◌∷◌ part) (split-join sep next parts h.1)

join-cons_first :
    (sep c : ℕ) (parts : List (List ℕ)) → join sep (cons_first c parts) ≡ c ∷ join sep parts
unfolding join
join-cons_first sep c [] = refl
join-cons_first sep c (part ∷ []) = refl
join-cons_first sep c (part ∷ next ∷ parts) = refl

split-ne-nil : (sep : ℕ) (s : List ℕ) → split sep s ≢ []
unfolding split
split-ne-nil sep [] = cc
split-ne-nil sep (c ∷ cs) = ground arith

join-nil_cons :
    (sep : ℕ) (parts : List (List ℕ)) → parts ≢ [] → join sep ([] ∷ parts) ≡ sep ∷ join sep parts
unfolding join
join-nil_cons sep [] h = absurd (h refl)
join-nil_cons sep (part ∷ parts) h = refl

-- Joining what was split gives the text back.
pub join-split : (sep : ℕ) (s : List ℕ) → join sep (split sep s) ≡ s
unfolding split
join-split sep [] = unfold join in refl
join-split sep (c ∷ cs) = ground (
  arith,
  join-nil_cons sep (split sep cs) (split-ne-nil sep cs),
  join-cons_first sep c (split sep cs),
  join-split sep cs,
)
