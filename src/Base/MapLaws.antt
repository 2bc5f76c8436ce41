-- ===== src/Base/MapLaws.antt =====
-- The laws of the Map: what a key gives after a write and after a removal, and the size.
use Prim.Native.Nat.{ℕ, ◌+◌, ◌-◌, ◌<◌}
use mathlib.Core.Path.{◌≡◌, refl, sym, subst, ◌∙◌}
use mathlib.Core.Logic.{◌≢◌, ◌↔◌, inl, inr}
use mathlib.Core.Bool.{true, false}
use mathlib.Core.Option.{none, some}
use mathlib.Core.List.{List, [], ◌∷◌}
use native.Mathlib.Omega.{arith}
use matterbridge.Base.Tests.{if◌then◌else◌, Bool-cases}
use matterbridge.Base.Lists.{length, All}
use matterbridge.Base.Maps.{
  same_text, same_text_iff, map_get, map_has, map_set, map_delete, HasDistinctKeys,
}

module _ {ℓ} {V : Type ℓ} where
  pub map_get-map_set :
      (key other : List ℕ) (value : V) (entries : List (List ℕ × V))
      → map_get other (map_set key value entries)
        ≡ (if same_text key other then some value else map_get other entries)
  unfolding map_get map_set
  map_get-map_set key other value [] = refl
  map_get-map_set key other value ((k, v) ∷ entries) = ground (
    arith,
    same_text_iff key other,
    same_text_iff k key,
    same_text_iff k other,
    map_get-map_set key other value entries,
  )

  pub map_has-map_set :
      (key other : List ℕ) (value : V) (entries : List (List ℕ × V))
      → map_has other (map_set key value entries)
        ≡ (if same_text key other then true else map_has other entries)
  unfolding map_has map_set
  map_has-map_set key other value [] = refl
  map_has-map_set key other value ((k, v) ∷ entries) = ground (
    arith,
    same_text_iff key other,
    same_text_iff k key,
    same_text_iff k other,
    map_has-map_set key other value entries,
  )

  pub length-map_set :
      (key : List ℕ) (value : V) (entries : List (List ℕ × V))
      → length (map_set key value entries)
        ≡ (if map_has key entries then length entries else length entries + 1)
  unfolding map_has map_set
  length-map_set key value [] = ground arith
  length-map_set key value ((k, v) ∷ entries) = ground (arith, length-map_set key value entries)

  pub map_set-HasDistinctKeys :
      (key : List ℕ) (value : V) (entries : List (List ℕ × V))
      → HasDistinctKeys entries
      → HasDistinctKeys (map_set key value entries)
  unfolding map_set
  map_set-HasDistinctKeys key value [] h = unfold map_has in (refl, tt)
  map_set-HasDistinctKeys key value ((k, v) ∷ entries) h = ground (
    arith,
    same_text_iff k key,
    same_text_iff key k,
    map_has-map_set key k value entries,
    map_set-HasDistinctKeys key value entries h.1,
  )

  map_get_absent :
      (key : List ℕ) (entries : List (List ℕ × V))
      → map_has key entries ≡ false
      → map_get key entries ≡ none
  unfolding map_get map_has
  map_get_absent key [] h = refl
  map_get_absent key ((k, v) ∷ entries) h = ground (arith, map_get_absent key entries)

  pub map_get-map_delete :
      (key other : List ℕ) (entries : List (List ℕ × V))
      → HasDistinctKeys entries
      → map_get other (map_delete key entries)
        ≡ (if same_text key other then none else map_get other entries)
  unfolding map_get map_delete
  map_get-map_delete key other [] h = ground arith
  map_get-map_delete key other ((k, v) ∷ entries) h = ground (
    arith,
    same_text_iff key other,
    same_text_iff k key,
    same_text_iff k other,
    map_get_absent k entries,
    map_get-map_delete key other entries h.1,
  )

  pub map_has-map_delete :
      (key other : List ℕ) (entries : List (List ℕ × V))
      → HasDistinctKeys entries
      → map_has other (map_delete key entries)
        ≡ (if same_text key other then false else map_has other entries)
  unfolding map_has map_delete
  map_has-map_delete key other [] h = ground arith
  map_has-map_delete key other ((k, v) ∷ entries) h = ground (
    arith,
    same_text_iff key other,
    same_text_iff k key,
    same_text_iff k other,
    map_has-map_delete key other entries h.1,
  )

  pub map_delete-HasDistinctKeys :
      (key : List ℕ) (entries : List (List ℕ × V))
      → HasDistinctKeys entries
      → HasDistinctKeys (map_delete key entries)
  unfolding map_delete
  map_delete-HasDistinctKeys key [] h = tt
  map_delete-HasDistinctKeys key ((k, v) ∷ entries) h = ground (
    arith,
    same_text_iff k key,
    same_text_iff key k,
    map_has-map_delete key k entries h.1,
    map_delete-HasDistinctKeys key entries h.1,
  )

  pub length-map_delete :
      (key : List ℕ) (entries : List (List ℕ × V))
      → length (map_delete key entries)
        ≡ (if map_has key entries then length entries - 1 else length entries)
  unfolding map_has map_delete
  length-map_delete key [] = refl
  length-map_delete key ((k, v) ∷ entries) =
      ground (arith, length-map_delete key entries, map_has_length key entries)
    where
      map_has_length : (j : List ℕ) (es : List (List ℕ × V)) → map_has j es ≡ true → 0 < length es
      map_has_length j [] e = cc
      map_has_length j (x ∷ es) e = omega arith

  pub map_has_get :
      (key : List ℕ) (entries : List (List ℕ × V))
      → (map_has key entries ≡ true) ↔ (map_get key entries ≢ none)
  unfolding map_has map_get
  map_has_get key [] = (λ h. cc, λ h. absurd (h refl))
  map_has_get key ((k, v) ∷ entries) = ground (arith, map_has_get key entries)

  module _ {κ} (P : List ℕ × V → Type κ) where
    pub map_set-All :
        (key : List ℕ) (value : V) (entries : List (List ℕ × V))
        → P (key, value)
        → All P entries
        → All P (map_set key value entries)
    unfolding map_set
    map_set-All key value [] h all = (h, tt)
    map_set-All key value ((k, v) ∷ entries) h all = elim (Bool-cases (same_text k key)) [
      | inl e ↦ rw e (subst (λ x. P (x, value)) (sym ((same_text_iff k key).0 e)) h, all.1)
      | inr e ↦ rw e (all.0, map_set-All key value entries h all.1)
    ]

    pub map_get-All :
        (key : List ℕ) (value : V) (entries : List (List ℕ × V))
        → All P entries
        → map_get key entries ≡ some value
        → P (key, value)
    unfolding map_get
    map_get-All key value [] all h = cc
    map_get-All key value ((k, v) ∷ entries) all h = elim (Bool-cases (same_text k key)) [
      | inl e ↦
          let here : map_get key ((k, v) ∷ entries) ≡ some v = rw e refl in
          let same_value : v ≡ value = cc in
          subst (λ x. P (x, value)) ((same_text_iff k key).0 e)
            (subst (λ x. P (k, x)) same_value all.0)
      | inr e ↦
          let later : map_get key ((k, v) ∷ entries) ≡ map_get key entries = rw e refl in
          map_get-All key value entries all.1 (sym later ∙ h)
    ]

    pub map_delete-All :
        (key : List ℕ) (entries : List (List ℕ × V))
        → All P entries
        → All P (map_delete key entries)
    unfolding map_delete
    map_delete-All key [] all = tt
    map_delete-All key ((k, v) ∷ entries) all = elim (Bool-cases (same_text k key)) [
      | inl e ↦ rw e all.1
      | inr e ↦ rw e (all.0, map_delete-All key entries all.1)
    ]
