-- ===== src/Base/Maps.antt =====
-- The Map of the language, keyed by texts: entries in insertion order. Writing a key that is there
-- keeps its place; a new key goes to the end.
use Prim.Native.Nat.{ℕ}
use mathlib.Core.Path.{◌≡◌, refl}
use mathlib.Core.Logic.{◌↔◌}
use mathlib.Core.Bool.{Bool, true, false, ◌&&◌}
use mathlib.Core.Option.{Option, none, some}
use mathlib.Core.List.{List, [], ◌∷◌, map}
use native.Mathlib.Omega.{arith}
use matterbridge.Base.Tests.{◌==◌, if◌then◌else◌}

-- `===` on texts.
unfoldable pub same_text : List ℕ → List ℕ → Bool
same_text [] [] = true
same_text [] (d ∷ ds) = false
same_text (c ∷ cs) [] = false
same_text (c ∷ cs) (d ∷ ds) = c == d && same_text cs ds

pub same_text_iff : (s t : List ℕ) → (same_text s t ≡ true) ↔ (s ≡ t)
unfolding same_text
same_text_iff [] [] = (λ _. refl, λ _. refl)
same_text_iff [] (d ∷ ds) = (λ h. cc, λ h. cc)
same_text_iff (c ∷ cs) [] = (λ h. cc, λ h. cc)
same_text_iff (c ∷ cs) (d ∷ ds) = ground (arith, same_text_iff cs ds)

pub same_text_refl : (s : List ℕ) → same_text s s ≡ true
same_text_refl s = (same_text_iff s s).1 refl

module _ {ℓ} {V : Type ℓ} where
  -- `map.get(key)`.
  unfoldable pub map_get : List ℕ → List (List ℕ × V) → Option V
  map_get key [] = none
  map_get key ((k, v) ∷ entries) = if same_text k key then some v else map_get key entries

  -- `map.has(key)`.
  unfoldable pub map_has : List ℕ → List (List ℕ × V) → Bool
  map_has key [] = false
  map_has key ((k, v) ∷ entries) = if same_text k key then true else map_has key entries

  -- `map.set(key, value)`.
  unfoldable pub map_set : List ℕ → V → List (List ℕ × V) → List (List ℕ × V)
  map_set key value [] = (key, value) ∷ []
  map_set key value ((k, v) ∷ entries) =
      if same_text k key then (k, value) ∷ entries else (k, v) ∷ map_set key value entries

  -- `map.delete(key)`, without its result, which is `map_has`.
  unfoldable pub map_delete : List ℕ → List (List ℕ × V) → List (List ℕ × V)
  map_delete key [] = []
  map_delete key ((k, v) ∷ entries) =
      if same_text k key then entries else (k, v) ∷ map_delete key entries

  -- No key twice.
  abbrev pub HasDistinctKeys : List (List ℕ × V) → Type ℓ
  HasDistinctKeys [] = Unit
  HasDistinctKeys ((k, v) ∷ entries) = (map_has k entries ≡ false) × HasDistinctKeys entries

  -- `Array.from(map.values())`.
  abbrev pub map_values : List (List ℕ × V) → List V
  map_values = map (λ e. e.1)
