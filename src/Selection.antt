-- ===== src/Selection.antt =====
-- packages/core/src/matterbridgePlatform.ts: validateDevice and validateEntity, which select by the
-- lists of a plugin's configuration. A list that is no array is `none`; the names that a JavaScript
-- object inherits, which `in` finds too, are no keys here.
pub mod Lists
pub mod Tests
use matterbridge.Base.{
  ℕ, ◌+◌, Bool, true, false, ◌&&◌, ◌||◌, not, Option, none, some, List, [], ◌∷◌, ltb, if◌then◌else◌,
  length, map_get, map_has, same_text,
}

pub record PlatformConfig : Type 0 where
  pub black_list : Option (List (List ℕ))
  pub white_list : Option (List (List ℕ))
  pub entity_black_list : Option (List (List ℕ))
  pub entity_white_list : Option (List (List ℕ))
  pub device_entity_black_list : Option (List (List ℕ × List (List ℕ)))

-- isValidArray and isValidObject, for a value that may be none.
unfoldable pub is_valid_array : {A : Type 0} → Option (List A) → ℕ → Bool
is_valid_array none min_length = false
is_valid_array (some values) min_length = not (ltb (length values) min_length)

unfoldable pub values_of : {A : Type 0} → Option (List A) → List A
values_of none = []
values_of (some values) = values

-- `list.includes(text)`.
unfoldable pub is_in : List ℕ → List (List ℕ) → Bool
is_in text [] = false
is_in text (t ∷ ts) = same_text t text || is_in text ts

-- The loop that counts the names that a list includes.
unfoldable pub count_in : List (List ℕ) → List (List ℕ) → ℕ
unfolding is_in
count_in list [] = 0
count_in list (d ∷ ds) = let rest = count_in list ds in if is_in d list then 1 + rest else rest

unfoldable pub black_list_blocked : PlatformConfig → List (List ℕ) → ℕ
unfolding is_valid_array values_of count_in
black_list_blocked c device =
    if is_valid_array c.black_list 1 then count_in (values_of c.black_list) device else 0

unfoldable pub white_list_passed : PlatformConfig → List (List ℕ) → ℕ
unfolding is_valid_array values_of count_in
white_list_passed c device =
    if is_valid_array c.white_list 1 then count_in (values_of c.white_list) device else 1

unfoldable pub validate_device : PlatformConfig → List (List ℕ) → Bool
unfolding black_list_blocked white_list_passed
validate_device c device =
    if ltb 0 (black_list_blocked c device) then false else ltb 0 (white_list_passed c device)

-- `list.find((e) => e === entity)` as a condition: the empty text that is found is false.
unfoldable pub finds : List ℕ → List (List ℕ) → Bool
unfolding is_in
finds [] list = false
finds (c ∷ cs) list = is_in (c ∷ cs) list

unfoldable pub device_entities : List ℕ → List (List ℕ × List (List ℕ)) → List (List ℕ)
device_entities device entries = elim (map_get device entries) [ none ↦ [] | some list ↦ list ]

unfoldable pub validate_entity : PlatformConfig → List ℕ → List ℕ → Bool
unfolding is_valid_array values_of finds device_entities is_in
validate_entity c device entity =
    if is_valid_array c.entity_black_list 1 && finds entity (values_of c.entity_black_list)
    then false
    else if is_valid_array c.entity_white_list 1
        && not (finds entity (values_of c.entity_white_list))
    then false
    else if is_valid_array c.device_entity_black_list 1
        && (map_has device (values_of c.device_entity_black_list)
            && is_in entity (device_entities device (values_of c.device_entity_black_list)))
    then false
    else true
