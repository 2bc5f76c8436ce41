-- ===== src/Coap/Sorting.antt =====
-- `toSorted` on the options: ascending, the same options, and stable.
use mathlib.Core.List.{Perm}
use mathlib.Core.List.Perm
use matterbridge.Base.{
  ℕ, ◌≤◌, ◌≡◌, refl, ap, ◌∙◌, inl, inr, List, [], ◌∷◌, arith, leb, ◌==◌, if◌then◌else◌, leb→le,
  le→leb, Bool-cases,
}
use matterbridge.Coap.{CoapOption, insert_option, sort_options}

-- The numbers ascend from `previous` on.
abbrev pub Ascending : ℕ → List CoapOption → Type 0
Ascending previous [] = Unit
Ascending previous (o ∷ os) = (previous ≤ o.number) × Ascending o.number os

insert_option-Ascending :
    (previous : ℕ) (o : CoapOption) (os : List CoapOption)
    → previous ≤ o.number
    → Ascending previous os
    → Ascending previous (insert_option o os)
unfolding insert_option
insert_option-Ascending previous o [] h a = (h, tt)
insert_option-Ascending previous o (p ∷ ps) h a = elim (Bool-cases (leb o.number p.number)) [
  | inl e ↦ rw e (h, (leb→le _ _ e, a.1))
  | inr e ↦ rw e (a.0, insert_option-Ascending p.number o ps (ground arith) a.1)
]

pub sort_options-Ascending : (os : List CoapOption) → Ascending 0 (sort_options os)
unfolding sort_options
sort_options-Ascending [] = tt
sort_options-Ascending (o ∷ os) =
    insert_option-Ascending 0 o (sort_options os) (omega arith) (sort_options-Ascending os)

insert_option-perm : (o : CoapOption) (os : List CoapOption) → Perm (insert_option o os) (o ∷ os)
unfolding insert_option
insert_option-perm o [] = Perm.refl (o ∷ [])
insert_option-perm o (p ∷ ps) = elim (Bool-cases (leb o.number p.number)) [
  | inl e ↦ rw e (Perm.refl (o ∷ p ∷ ps))
  | inr e ↦ rw e (Perm.trans (Perm.cons p (insert_option-perm o ps)) (Perm.swap _ _ _))
]

sort_options-perm : (os : List CoapOption) → Perm (sort_options os) os
unfolding sort_options
sort_options-perm [] = Perm.refl []
sort_options-perm (o ∷ os) =
    Perm.trans (insert_option-perm o (sort_options os)) (Perm.cons o (sort_options-perm os))

-- The options of one number, in the order in which they stand.
abbrev pub numbered : ℕ → List CoapOption → List CoapOption
numbered n [] = []
numbered n (o ∷ os) = if o.number == n then o ∷ numbered n os else numbered n os

insert_option-numbered :
    (n : ℕ) (o : CoapOption) (os : List CoapOption)
    → numbered n (insert_option o os) ≡ numbered n (o ∷ os)
unfolding insert_option
insert_option-numbered n o [] = refl
insert_option-numbered n o (p ∷ ps) = ground (arith, insert_option-numbered n o ps)

sort_options-numbered :
    (n : ℕ) (os : List CoapOption) → numbered n (sort_options os) ≡ numbered n os
unfolding sort_options
sort_options-numbered n [] = refl
sort_options-numbered n (o ∷ os) =
    insert_option-numbered n o (sort_options os)
    ∙ ap (λ l. if o.number == n then o ∷ l else l) (sort_options-numbered n os)

-- The encoder's order of the options: their numbers ascend, they are the given options, and those
-- of one number keep the order in which they were given.
pub sort_options_lem :
    (os : List CoapOption)
    → Ascending 0 (sort_options os)
      × Perm (sort_options os) os
      × ((n : ℕ) → numbered n (sort_options os) ≡ numbered n os)
sort_options_lem os =
    (sort_options-Ascending os, sort_options-perm os, λ n. sort_options-numbered n os)

insert_option_first :
    (previous : ℕ) (o : CoapOption) (os : List CoapOption)
    → Ascending previous (o ∷ os)
    → insert_option o os ≡ o ∷ os
unfolding insert_option
insert_option_first previous o [] a = refl
insert_option_first previous o (p ∷ ps) a = rw (le→leb _ _ a.1.0)

-- Sorting leaves options that ascend as they are.
pub sort_options_sorted :
    (previous : ℕ) (os : List CoapOption) → Ascending previous os → sort_options os ≡ os
unfolding sort_options
sort_options_sorted previous [] a = refl
sort_options_sorted previous (o ∷ os) a =
    rw (sort_options_sorted o.number os a.1) (insert_option_first previous o os a)
