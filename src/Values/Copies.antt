-- ===== src/Values/Copies.antt =====
-- packages/utils/src/deepCopy.ts: deepCopy, which getSnapshot of
-- packages/core/src/matterbridgeEndpointHelpers.ts repeats for plain values; and that a value is
-- deeply equal to itself and to its copy.
use matterbridge.Base.{
  ℕ, suc, ◌≡◌, refl, ap, ◌∙◌, Bool, true, false, Option, none, some, List, [], ◌∷◌, arith,
  if◌then◌else◌, ==_refl, same_text, same_text_refl, same_text,
}
use matterbridge.Values.{
  PropertyName, index, named, Value, undefined, null, boolean, string, function, date, reg_exp,
  array, object, number, Items, nil, cons, Fields, end, field, same_property, strict_equal,
  same_type, is_nullish, items_length, get_own, is_object,
}
use matterbridge.Values.Equality.{
  count, own, equal_items, equal_fields, guarded, deep_equal, equal_date, equal_reg_exp,
}

unfoldable mutual
  pub deep_copy : Value → Value
  deep_copy (reg_exp source flags last_index) = reg_exp source flags 0
  deep_copy (array items) = array (copy_items items)
  deep_copy (object fields) = object (copy_fields fields)
  deep_copy value = value

  pub copy_items : Items → Items
  copy_items nil = nil
  copy_items (cons item items) = cons (deep_copy item) (copy_items items)

  pub copy_fields : Fields → Fields
  copy_fields end = end
  copy_fields (field k v fields) = field k (deep_copy v) (copy_fields fields)

-- No object has a property twice.
abbrev mutual
  pub IsValue : Value → Type 0
  IsValue (array items) = AreValues items
  IsValue (object fields) = HasValues fields
  IsValue _ = Unit

  pub AreValues : Items → Type 0
  AreValues nil = Unit
  AreValues (cons item items) = IsValue item × AreValues items

  pub HasValues : Fields → Type 0
  HasValues end = Unit
  HasValues (field k v fields) = (get_own k fields ≡ none) × IsValue v × HasValues fields

same_property_refl : (k : PropertyName) → same_property k k ≡ true
unfolding same_property
same_property_refl (index i) = ==_refl i
same_property_refl (named s) = same_text_refl s

same_text_sym : (s t : List ℕ) → same_text s t ≡ same_text t s
unfolding same_text
same_text_sym [] [] = refl
same_text_sym [] (d ∷ t) = refl
same_text_sym (c ∷ s) [] = refl
same_text_sym (c ∷ s) (d ∷ t) = ground (arith, same_text_sym s t)

same_property_sym : (j k : PropertyName) → same_property j k ≡ same_property k j
unfolding same_property
same_property_sym (index i) (index j) = ground arith
same_property_sym (index i) (named t) = refl
same_property_sym (named s) (index j) = refl
same_property_sym (named s) (named t) = same_text_sym s t

-- The properties of an object are those of another.
abbrev IsPart : Fields → Fields → Type 0
IsPart end others = Unit
IsPart (field k v fields) others = (get_own k others ≡ some v) × IsPart fields others

IsPart-field :
    (fields others : Fields) (k : PropertyName) (v : Value)
    → get_own k fields ≡ none
    → IsPart fields others
    → IsPart fields (field k v others)
unfolding get_own
IsPart-field end others k v h p = tt
IsPart-field (field j w fields) others k v h p =
    ground
      (arith, p.0, same_property_sym j k, IsPart-field fields others k v (ground (arith, h)) p.1)

IsPart-refl : (fields : Fields) → HasValues fields → IsPart fields fields
unfolding get_own
IsPart-refl end h = tt
IsPart-refl (field k v fields) h =
    (rw (same_property_refl k) refl, IsPart-field fields fields k v h.0 (IsPart-refl fields h.2))

mutual
  unfolding deep_equal guarded strict_equal same_type is_nullish is_object own equal_date
      equal_reg_exp

  equal_refl : (exclude : List PropertyName) (a : Value) → IsValue a → deep_equal exclude a a ≡ true
  equal_refl exclude undefined h = refl
  equal_refl exclude null h = refl
  equal_refl exclude (boolean true) h = refl
  equal_refl exclude (boolean false) h = refl
  equal_refl exclude (number n) h = rw (==_refl n) refl
  equal_refl exclude (string s) h = rw (same_text_refl s) refl
  equal_refl exclude (function f) h = rw (==_refl f) refl
  equal_refl exclude (date time) h = ==_refl time
  equal_refl exclude (reg_exp source flags last_index) h =
      rw (same_text_refl source) (same_text_refl flags)
  equal_refl exclude (array items) h =
      rw (==_refl (items_length items)) (items_refl exclude items h)
  equal_refl exclude (object fields) h =
      rw (==_refl (count exclude fields))
        (fields_refl exclude fields fields h (IsPart-refl fields h))

  items_refl :
      (exclude : List PropertyName) (items : Items)
      → AreValues items
      → equal_items exclude items items ≡ true
  items_refl exclude nil h = refl
  items_refl exclude (cons a items) h = rw (equal_refl exclude a h.0) (items_refl exclude items h.1)

  fields_refl :
      (exclude : List PropertyName) (fields others : Fields)
      → HasValues fields
      → IsPart fields others
      → equal_fields exclude fields others ≡ true
  fields_refl exclude end others h p = refl
  fields_refl exclude (field k v fields) others h p =
      ground (arith, p.0, equal_refl exclude v h.1, fields_refl exclude fields others h.2 p.1)

items_length-copy : (items : Items) → items_length (copy_items items) ≡ items_length items
unfolding items_length copy_items
items_length-copy nil = refl
items_length-copy (cons a items) = ap suc (items_length-copy items)

count-copy :
    (exclude : List PropertyName) (fields : Fields)
    → count exclude (copy_fields fields) ≡ count exclude fields
unfolding count copy_fields
count-copy exclude end = refl
count-copy exclude (field k v fields) = ground (arith, count-copy exclude fields)

abbrev copied : Option Value → Option Value
copied none = none
copied (some v) = some (deep_copy v)

if_copied :
    (found : Bool) (w : Value) (rest copy : Option Value)
    → copy ≡ copied rest
    → (if found then some (deep_copy w) else copy) ≡ copied (if found then some w else rest)
if_copied true w rest copy h = refl
if_copied false w rest copy h = h

get_own-copy :
    (k : PropertyName) (fields : Fields)
    → get_own k (copy_fields fields) ≡ copied (get_own k fields)
unfolding get_own copy_fields
get_own-copy k end = refl
get_own-copy k (field j w fields) =
    if_copied (same_property j k) w (get_own k fields) (get_own k (copy_fields fields))
      (get_own-copy k fields)

mutual
  unfolding deep_equal guarded strict_equal same_type is_nullish is_object own equal_date
      equal_reg_exp deep_copy

  equal_copy :
      (exclude : List PropertyName) (a : Value)
      → IsValue a
      → deep_equal exclude a (deep_copy a) ≡ true
  equal_copy exclude undefined h = refl
  equal_copy exclude null h = refl
  equal_copy exclude (boolean true) h = refl
  equal_copy exclude (boolean false) h = refl
  equal_copy exclude (number n) h = rw (==_refl n) refl
  equal_copy exclude (string s) h = rw (same_text_refl s) refl
  equal_copy exclude (function f) h = rw (==_refl f) refl
  equal_copy exclude (date time) h = ==_refl time
  equal_copy exclude (reg_exp source flags last_index) h =
      rw (same_text_refl source) (same_text_refl flags)
  equal_copy exclude (array items) h =
      rw (items_length-copy items, ==_refl (items_length items)) (items_copy exclude items h)
  equal_copy exclude (object fields) h =
      rw (count-copy exclude fields, ==_refl (count exclude fields))
        (fields_copy exclude fields fields h (IsPart-refl fields h))

  items_copy :
      (exclude : List PropertyName) (items : Items)
      → AreValues items
      → equal_items exclude items (copy_items items) ≡ true
  items_copy exclude nil h = refl
  items_copy exclude (cons a items) h = rw (equal_copy exclude a h.0) (items_copy exclude items h.1)

  fields_copy :
      (exclude : List PropertyName) (fields others : Fields)
      → HasValues fields
      → IsPart fields others
      → equal_fields exclude fields (copy_fields others) ≡ true
  fields_copy exclude end others h p = refl
  fields_copy exclude (field k v fields) others h p = ground (
    arith,
    get_own-copy k others ∙ ap copied p.0,
    equal_copy exclude v h.1,
    fields_copy exclude fields others h.2 p.1,
  )

-- A value none of whose objects has a property twice is deeply equal to itself, property by property,
-- and to its copy, whatever is excluded.
pub deep_equal-deep_copy :
    (exclude : List PropertyName) (a : Value)
    → IsValue a
    → (deep_equal exclude a a ≡ true) × (deep_equal exclude a (deep_copy a) ≡ true)
deep_equal-deep_copy exclude a h = (equal_refl exclude a h, equal_copy exclude a h)
