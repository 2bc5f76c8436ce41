-- ===== src/Values/Equality.antt =====
-- packages/utils/src/deepEqual.ts: deepEqual.
use matterbridge.Base.{
  ℕ, suc, Bool, true, false, ◌&&◌, ◌||◌, not, none, some, List, [], ◌∷◌, ◌==◌, if◌then◌else◌,
  same_text,
}
use matterbridge.Values.{
  PropertyName, index, named, Value, date, reg_exp, array, object, number, Items, nil, cons, Fields,
  end, field, same_property, strict_equal, same_type, is_nullish, items_length, get_own,
}

abbrev pub length_name : PropertyName
length_name = named (b'l' ∷ b'e' ∷ b'n' ∷ b'g' ∷ b't' ∷ b'h' ∷ [])

abbrev pub last_index_name : PropertyName
last_index_name = named (b'l' ∷ b'a' ∷ b's' ∷ b't' ∷ b'I' ∷ b'n' ∷ b'd' ∷ b'e' ∷ b'x' ∷ [])

unfoldable pub indexed : ℕ → ℕ → Items → Fields
indexed i count nil = field length_name (number count) end
indexed i count (cons item items) = field (index i) item (indexed (suc i) count items)

-- The own properties of an object that is not null.
unfoldable pub own : Value → Fields
unfolding indexed items_length
own (reg_exp source flags last_index) = field last_index_name (number last_index) end
own (array items) = indexed 0 (items_length items) items
own (object fields) = fields
own _ = end

-- `excludeProperties.includes(name)`.
unfoldable pub is_excluded : List PropertyName → PropertyName → Bool
is_excluded [] name = false
is_excluded (excluded ∷ exclude) name = same_property excluded name || is_excluded exclude name

-- The number of the properties that are not excluded.
unfoldable pub count : List PropertyName → Fields → ℕ
unfolding is_excluded
count exclude end = 0
count exclude (field k v fields) =
    if is_excluded exclude k then count exclude fields else suc (count exclude fields)

-- What comes before the comparison of two objects that are not null.
unfoldable pub guarded : Value → Value → Bool → Bool
unfolding strict_equal same_type is_nullish
guarded a b objects =
    if strict_equal a b
    then true
    else (if not (same_type a b)
        then false
        else (if is_nullish a || is_nullish b then false else objects))

-- A property of `a` that is a number, in the loop over the properties.
unfoldable pub equal_number : List PropertyName → PropertyName → ℕ → Fields → Bool
unfolding is_excluded get_own strict_equal
equal_number exclude name n others =
    if is_excluded exclude name
    then true
    else elim (get_own name others) [ none ↦ false | some v ↦ strict_equal (number n) v ]

unfoldable pub equal_date : List PropertyName → ℕ → Value → Bool
unfolding count own
equal_date exclude time (date other) = time == other
equal_date exclude time b = 0 == count exclude (own b)

unfoldable pub equal_reg_exp : List PropertyName → List ℕ → List ℕ → ℕ → Value → Bool
unfolding count own equal_number
equal_reg_exp exclude source flags last_index (reg_exp other_source other_flags other) =
    same_text source other_source && same_text flags other_flags
equal_reg_exp exclude source flags last_index b =
    (count exclude (own (reg_exp source flags last_index)) == count exclude (own b))
    && equal_number exclude last_index_name last_index (own b)

unfoldable mutual
  pub deep_equal : List PropertyName → Value → Value → Bool
  deep_equal exclude (date time) b = guarded (date time) b (equal_date exclude time b)
  deep_equal exclude (reg_exp source flags last_index) b =
      guarded (reg_exp source flags last_index) b (equal_reg_exp exclude source flags last_index b)
  deep_equal exclude (array items) (array others) =
      guarded (array items) (array others)
        ((items_length items == items_length others) && equal_items exclude items others)
  deep_equal exclude (array items) b = guarded (array items) b (
      (count exclude (own (array items)) == count exclude (own b))
      && equal_indexed exclude 0 (items_length items) items (own b))
  deep_equal exclude (object fields) b =
      guarded (object fields) b
        ((count exclude fields == count exclude (own b)) && equal_fields exclude fields (own b))
  deep_equal exclude a b = guarded a b false

  -- The loop over the places of two arrays of one length.
  pub equal_items : List PropertyName → Items → Items → Bool
  equal_items exclude nil others = true
  equal_items exclude (cons a items) nil = false
  equal_items exclude (cons a items) (cons b others) =
      deep_equal exclude a b && equal_items exclude items others

  -- The loop over the properties of an array, against those of an object.
  pub equal_indexed : List PropertyName → ℕ → ℕ → Items → Fields → Bool
  equal_indexed exclude i size nil others = equal_number exclude length_name size others
  equal_indexed exclude i size (cons a items) others =
      let rest = equal_indexed exclude (suc i) size items others in
      if is_excluded exclude (index i) then rest else elim (get_own (index i) others) [
        | none ↦ false
        | some b ↦ deep_equal exclude a b && rest
      ]

  -- The loop over the properties of an object.
  pub equal_fields : List PropertyName → Fields → Fields → Bool
  equal_fields exclude end others = true
  equal_fields exclude (field k a fields) others =
      let rest = equal_fields exclude fields others in
      if is_excluded exclude k
      then rest
      else elim (get_own k others) [ none ↦ false | some b ↦ deep_equal exclude a b && rest ]
