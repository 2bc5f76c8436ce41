-- ===== src/DeviceTypes/Lookup.antt =====
-- packages/core/src/matterbridgeDeviceTypes.ts: getSupportedDeviceType finds the device types.
use text.Mathlib.TextEquality.{eq_iff}
use Prim.Native.String.{String}
use matterbridge.Base.{
  ℕ, ◌≡◌, refl, sym, subst, inl, inr, Bool, true, false, ◌&&◌, ◌||◌, not, some, List, [], ◌∷◌, ◌++◌,
  arith, ==_iff, ==_refl, Bool-cases, take, drop, All,
}
use matterbridge.DeviceTypes.{DeviceTypeDefinition}
use matterbridge.DeviceTypes.Search.{Key, by_code, by_name, same_name, has_key, find}
use matterbridge.DeviceTypes.Household.{
  temperature_controlled_cabinet_cooler, temperature_controlled_cabinet_heater,
}
use matterbridge.DeviceTypes.Supported.{supported_device_types, get_supported_device_type}

abbrev any : (DeviceTypeDefinition → Bool) → List DeviceTypeDefinition → Bool
any test [] = false
any test (d ∷ device_types) = test d || any test device_types

same_name_swap : (s t : String) → same_name s t ≡ false → same_name t s ≡ false
same_name_swap s t h = elim (Bool-cases (same_name t s)) [
  | inl e ↦ cc (h, (eq_iff s t).1 (sym ((eq_iff t s).0 e)))
  | inr e ↦ e
]

same_name_refl : (s : String) → same_name s s ≡ true
same_name_refl s = (eq_iff s s).1 refl

-- Searching by one of the keys that a device type has.
module _ (key_of : DeviceTypeDefinition → Key)
    (swap : (d e : DeviceTypeDefinition)
      → has_key (key_of d) e ≡ false
      → has_key (key_of e) d ≡ false)
    (self : (d : DeviceTypeDefinition) → has_key (key_of d) d ≡ true) where
  abbrev distinct : List DeviceTypeDefinition → Bool
  distinct [] = true
  distinct (d ∷ device_types) = not (any (has_key (key_of d)) device_types) && distinct device_types

  abbrev IsFound : List DeviceTypeDefinition → DeviceTypeDefinition → Type 0
  IsFound device_types d = find (key_of d) device_types ≡ some d

  find-skip :
      (d : DeviceTypeDefinition) (tail found : List DeviceTypeDefinition)
      → any (has_key (key_of d)) found ≡ false
      → All (IsFound tail) found
      → All (IsFound (d ∷ tail)) found
  unfolding find
  find-skip d tail [] h k = tt
  find-skip d tail (e ∷ found) h k =
      (ground (arith, k.0, swap d e), find-skip d tail found (ground (arith, h)) k.1)

  find-distinct :
      (device_types : List DeviceTypeDefinition)
      → distinct device_types ≡ true
      → All (IsFound device_types) device_types
  unfolding find
  find-distinct [] h = tt
  find-distinct (d ∷ device_types) h = (
    rw (self d) refl,
    find-skip d device_types device_types (ground (arith, h))
        (find-distinct device_types (ground (arith, h))),
  )

-- A device type is not found if one before it has the key.
find-shadowed :
    (key : Key) (d : DeviceTypeDefinition) (before after : List DeviceTypeDefinition)
    → (has_key key d ≡ true → any (has_key key) before ≡ true)
    → find key (before ++ (d ∷ after)) ≡ find key (before ++ after)
unfolding find
find-shadowed key d [] after h = ground (arith, h)
find-shadowed key d (e ∷ before) after h = ground (arith, h, find-shadowed key d before after)

abbrev heater : DeviceTypeDefinition
heater = temperature_controlled_cabinet_heater

-- The supported device types before and after the cabinet with a heater.
abbrev before_heater : List DeviceTypeDefinition
before_heater = take 63 supported_device_types

abbrev after_heater : List DeviceTypeDefinition
after_heater = drop 64 supported_device_types

abbrev pub reachable : List DeviceTypeDefinition
reachable = before_heater ++ after_heater

reachable_codes : All (λ d. find (by_code d.code) reachable ≡ some d) reachable
unfolding has_key
reachable_codes =
    find-distinct (λ d. by_code d.code) (λ d e h. ground (arith, h)) (λ d. ==_refl d.code) reachable
      refl

reachable_names : All (λ d. find (by_name d.name) reachable ≡ some d) reachable
unfolding has_key
reachable_names =
    find-distinct (λ d. by_name d.name) (λ d e h. same_name_swap e.name d.name h)
      (λ d. same_name_refl d.name) reachable refl

code_shadowed :
    (key : ℕ)
    → has_key (by_code key) heater ≡ true
    → any (has_key (by_code key)) before_heater ≡ true
unfolding has_key
code_shadowed key h =
    subst (λ c. any (has_key (by_code c)) before_heater ≡ true) ((==_iff heater.code key).0 h) refl

name_shadowed :
    (key : String)
    → has_key (by_name key) heater ≡ true
    → any (has_key (by_name key)) before_heater ≡ true
unfolding has_key
name_shadowed key h =
    subst (λ c. any (has_key (by_name c)) before_heater ≡ true) ((eq_iff heater.name key).0 h) refl

supported_code : (key : ℕ) → get_supported_device_type (by_code key) ≡ find (by_code key) reachable
unfolding get_supported_device_type
supported_code key =
    find-shadowed (by_code key) heater before_heater after_heater (code_shadowed key)

supported_name :
    (key : String) → get_supported_device_type (by_name key) ≡ find (by_name key) reachable
unfolding get_supported_device_type
supported_name key =
    find-shadowed (by_name key) heater before_heater after_heater (name_shadowed key)

abbrev pub IsSupported : DeviceTypeDefinition → Type 0
IsSupported d =
    (get_supported_device_type (by_code d.code) ≡ some d)
    × (get_supported_device_type (by_name d.name) ≡ some d)

found-IsSupported :
    (device_types : List DeviceTypeDefinition)
    → All (λ d. find (by_code d.code) reachable ≡ some d) device_types
    → All (λ d. find (by_name d.name) reachable ≡ some d) device_types
    → All IsSupported device_types
found-IsSupported [] h k = tt
found-IsSupported (d ∷ device_types) h k = (
  (rw (supported_code d.code) h.0, rw (supported_name d.name) k.0),
  found-IsSupported device_types h.1 k.1,
)

-- Every supported device type but one is found by its code and by its name: the cabinet with a
-- heater has the code and the name of the cabinet with a cooler, which is found for both.
pub get_supported_device_type_lem :
    All IsSupported reachable
    × (get_supported_device_type (by_code heater.code) ≡ some temperature_controlled_cabinet_cooler)
    × (get_supported_device_type (by_name heater.name) ≡ some temperature_controlled_cabinet_cooler)
unfolding get_supported_device_type find has_key
get_supported_device_type_lem =
    (found-IsSupported reachable reachable_codes reachable_names, refl, refl)
