-- ===== src/Endpoints/Labels.antt =====
-- packages/core/src/matterbridgeEndpointHelpers.ts: addFixedLabel and addUserLabel, which do the same to
-- the label list of their cluster. Without the cluster there is no list; the attribute of an endpoint
-- that is not active cannot be read, and is left alone.
use matterbridge.Base.{
  ℕ, ◌≤◌, ◌≡◌, refl, inl, inr, Bool, true, not, Option, none, some, List, [], ◌∷◌, ◌++◌, arith,
  if◌then◌else◌, Bool-cases, length, take, length-take, All, HasDistinctKeys, map_get, map_has,
  same_text, same_text_iff, same_text,
}

-- `filter((entry) => entry.label !== label)`.
unfoldable pub without_label : List ℕ → List (List ℕ × List ℕ) → List (List ℕ × List ℕ)
without_label label [] = []
without_label label ((k, v) ∷ entries) =
    let rest = without_label label entries in
    if not (same_text k label) then (k, v) ∷ rest else rest

unfoldable pub add_label :
    Bool → List ℕ → List ℕ → Option (List (List ℕ × List ℕ)) → Option (List (List ℕ × List ℕ))
unfolding without_label
add_label is_active label value none = some ((take 16 label, take 16 value) ∷ [])
add_label is_active label value (some list) =
    if is_active
    then some (without_label (take 16 label) list ++ ((take 16 label, take 16 value) ∷ []))
    else some list

abbrev pub IsLabelList : List (List ℕ × List ℕ) → Type 0
IsLabelList list = HasDistinctKeys list × All (λ e. (length e.0 ≤ 16) × (length e.1 ≤ 16)) list

-- The list with a new last entry.
abbrev appended : List ℕ → List ℕ → List (List ℕ × List ℕ) → List (List ℕ × List ℕ)
appended label value list = without_label label list ++ ((label, value) ∷ [])

map_has-appended :
    (label value other : List ℕ) (list : List (List ℕ × List ℕ))
    → map_has other (appended label value list)
      ≡ (if same_text label other then true else map_has other list)
unfolding without_label map_has
map_has-appended label value other [] = refl
map_has-appended label value other ((k, v) ∷ list) = ground (
  arith,
  same_text_iff label other,
  same_text_iff k label,
  same_text_iff k other,
  map_has-appended label value other list,
)

map_get-appended :
    (label value other : List ℕ) (list : List (List ℕ × List ℕ))
    → map_get other (appended label value list)
      ≡ (if same_text label other then some value else map_get other list)
unfolding without_label map_get
map_get-appended label value other [] = refl
map_get-appended label value other ((k, v) ∷ list) = ground (
  arith,
  same_text_iff label other,
  same_text_iff k label,
  same_text_iff k other,
  map_get-appended label value other list,
)

appended-HasDistinctKeys :
    (label value : List ℕ) (list : List (List ℕ × List ℕ))
    → HasDistinctKeys list
    → HasDistinctKeys (appended label value list)
unfolding without_label map_has
appended-HasDistinctKeys label value [] h = (refl, tt)
appended-HasDistinctKeys label value ((k, v) ∷ list) h = elim (Bool-cases (same_text k label)) [
  | inl e ↦ rw e (appended-HasDistinctKeys label value list h.1)
  | inr e ↦ rw e (
    ground (
      arith,
      e,
      h.0,
      same_text_iff label k,
      same_text_iff k label,
      map_has-appended label value k list,
    ),
    appended-HasDistinctKeys label value list h.1,
  )
]

appended-All :
    (label value : List ℕ) (list : List (List ℕ × List ℕ))
    → (length label ≤ 16) × (length value ≤ 16)
    → All (λ e. (length e.0 ≤ 16) × (length e.1 ≤ 16)) list
    → All (λ e. (length e.0 ≤ 16) × (length e.1 ≤ 16)) (appended label value list)
unfolding without_label
appended-All label value [] h k = (h, tt)
appended-All label value ((l, v) ∷ list) h k = elim (Bool-cases (same_text l label)) [
  | inl e ↦ rw e (appended-All label value list h k.1)
  | inr e ↦ rw e (k.0, appended-All label value list h k.1)
]

length-take-le : (text : List ℕ) → length (take 16 text) ≤ 16
length-take-le text = omega (arith, length-take 16 text)

-- Adding a label to the list of an active endpoint keeps its labels distinct and its texts within 16
-- characters; the label has the new value then, cut to 16 characters, and every other label keeps its
-- own.
pub add_label_lem :
    (label value : List ℕ) (list : List (List ℕ × List ℕ))
    → IsLabelList list
    → (next : List (List ℕ × List ℕ)) × (add_label true label value (some list) ≡ some next)
      × IsLabelList next
      × ((other : List ℕ)
          → map_get other next ≡ (
              if same_text (take 16 label) other then some (take 16 value) else map_get other list))
unfolding add_label
add_label_lem label value list h = (
  appended (take 16 label) (take 16 value) list,
  refl,
  (
    appended-HasDistinctKeys (take 16 label) (take 16 value) list h.0,
    appended-All (take 16 label) (take 16 value) list (length-take-le label, length-take-le value)
        h.1,
  ),
  λ other. map_get-appended (take 16 label) (take 16 value) other list,
)
