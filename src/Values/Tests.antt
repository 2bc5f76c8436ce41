-- ===== src/Values/Tests.antt =====
-- deepEqual and deepCopy on small values.
use matterbridge.Base.{ℕ, ◌≡◌, refl, true, false, [], ◌∷◌, same_text, same_text}
use matterbridge.Values.{
  PropertyName, named, index, Value, number, boolean, array, object, date, cons, nil, field, end,
  get_own, same_property,
}
use matterbridge.Values.Equality.{
  deep_equal, length_name, guarded, count, own, equal_number, equal_date,
}
use matterbridge.Values.Copies.{deep_copy, deep_equal-deep_copy}

abbrev letter : ℕ → PropertyName
letter c = named (c ∷ [])

abbrev position : Value
position =
    object
      (field (letter b'x') (number 3) (field (letter b'y') (array (cons (boolean true) nil)) end))

abbrev turned : Value
turned =
    object
      (field (letter b'y') (array (cons (boolean true) nil)) (field (letter b'x') (number 3) end))

deep_equal-deep_copy_example :
    (deep_equal (letter b'z' ∷ []) position position ≡ true)
    × (deep_equal (letter b'z' ∷ []) position (deep_copy position) ≡ true)
unfolding get_own same_property same_text
deep_equal-deep_copy_example =
    deep_equal-deep_copy (letter b'z' ∷ []) position ((refl, tt, ((refl, (tt, tt), tt))))

-- The order of the properties does not matter; one that is excluded is not compared.
order_is_free :
    (deep_equal [] position turned ≡ true)
    × (deep_equal [] position (object (field (letter b'x') (number 3) end)) ≡ false)
    × (deep_equal (letter b'y' ∷ []) position (object (field (letter b'x') (number 3) end)) ≡ true)
unfolding deep_equal guarded count own get_own same_property equal_number same_text equal_date
order_is_free = (refl, refl, refl)

-- An array is deeply equal to an object with its indices and its length, and a date to an object
-- without properties.
array_and_object :
    (deep_equal []
        (array (cons (number 7) nil))
        (object (field (index 0) (number 7) (field length_name (number 1) end)))
      ≡ true)
    × (deep_equal [] (date 5) (object end) ≡ true)
unfolding deep_equal guarded count own get_own same_property equal_number same_text equal_date
array_and_object = (refl, refl)
