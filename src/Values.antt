-- ===== src/Values.antt =====
-- The values of the language, as packages/utils/src/deepEqual.ts, packages/utils/src/deepCopy.ts and
-- getSnapshot of packages/core/src/matterbridgeEndpointHelpers.ts take them apart. A number other than
-- NaN is a natural number here, a date its timestamp, and a function is known by its identity. Objects
-- are trees, and two objects of a comparison are distinct instances: for the same instance
-- deepEqual says true at once, which is what it finds on its properties too. Maps, Sets, buffers and
-- symbols are not among these values.
pub mod Equality
pub mod Copies
pub mod Validity
pub mod Tests
use matterbridge.Base.{
  ℕ, suc, Bool, true, false, ◌&&◌, not, Option, none, some, List, ◌==◌, if◌then◌else◌, same_text,
}

-- The name of a property: the index of an array, or a text that is not one.
pub data PropertyName : Type 0 where
  index : ℕ → PropertyName
  named : List ℕ → PropertyName

mutual
  -- A regular expression has its source, flags and lastIndex.
  pub data Value : Type 0 where
    undefined null : Value
    boolean : Bool → Value
    number : ℕ → Value
    string : List ℕ → Value
    function : ℕ → Value
    date : ℕ → Value
    reg_exp : List ℕ → List ℕ → ℕ → Value
    array : Items → Value
    object : Fields → Value

  pub data Items : Type 0 where
    nil : Items
    cons : Value → Items → Items

  -- The own properties of an object.
  pub data Fields : Type 0 where
    end : Fields
    field : PropertyName → Value → Fields → Fields

unfoldable pub same_property : PropertyName → PropertyName → Bool
same_property (index i) (index j) = i == j
same_property (named s) (named t) = same_text s t
same_property _ _ = false

-- `a === b`, for distinct instances if they are objects.
unfoldable pub strict_equal : Value → Value → Bool
strict_equal undefined undefined = true
strict_equal null null = true
strict_equal (boolean true) (boolean c) = c
strict_equal (boolean false) (boolean c) = not c
strict_equal (number m) (number n) = m == n
strict_equal (string s) (string t) = same_text s t
strict_equal (function f) (function g) = f == g
strict_equal _ _ = false

-- `typeof a === 'object'`.
unfoldable pub is_object : Value → Bool
is_object null = true
is_object (date time) = true
is_object (reg_exp source flags last_index) = true
is_object (array items) = true
is_object (object fields) = true
is_object _ = false

-- `typeof a === typeof b`.
unfoldable pub same_type : Value → Value → Bool
unfolding is_object
same_type undefined undefined = true
same_type (boolean b) (boolean c) = true
same_type (number m) (number n) = true
same_type (string s) (string t) = true
same_type (function f) (function g) = true
same_type a b = is_object a && is_object b

-- `a == null`.
unfoldable pub is_nullish : Value → Bool
is_nullish undefined = true
is_nullish null = true
is_nullish _ = false

unfoldable pub items_length : Items → ℕ
items_length nil = 0
items_length (cons item items) = suc (items_length items)

-- The value of an own property.
unfoldable pub get_own : PropertyName → Fields → Option Value
get_own name end = none
get_own name (field k v fields) = if same_property k name then some v else get_own name fields
