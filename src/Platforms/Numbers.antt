-- ===== src/Platforms/Numbers.antt =====
-- matterbridgePlatform.ts: what checkEndpointNumbers leaves in the map of endpoint numbers.
use matterbridge.Base.{
  ℕ, zero, suc, ◌≡◌, refl, ap, subst, ◌∙◌, inl, inr, Option, none, some, List, [], ◌∷◌, ◌++◌, ◌==◌,
  if◌then◌else◌, ==_iff, Bool-cases, map_get, map_get-map_set, same_text, same_text_iff, same_text,
}
use matterbridge.Platforms.{
  Device, MatterbridgePlatform, record_over, record_number, record_numbered, separator,
  record_children, record_device, record_devices, check_endpoint_numbers,
}

-- The number that a key has after a later write, or else had before.
abbrev pub written : List ℕ → ℕ → List ℕ → Option ℕ → Option ℕ
written key number other before = if same_text key other then some number else before

-- What the numbers of the children of a device make of a key.
abbrev pub children_number :
    List ℕ → List (Option (List ℕ) × Option ℕ) → List ℕ → Option ℕ → Option ℕ
children_number id ((some (c ∷ child), some (suc number)) ∷ children) other before =
    children_number id children other
      (written (id ++ separator ++ (c ∷ child)) (suc number) other before)
children_number id (_ ∷ children) other before = children_number id children other before
children_number id [] other before = before

-- What the numbers of a device make of a key: the device itself, then its children.
abbrev pub device_number :
    Option (List ℕ) → Option ℕ → List (Option (List ℕ) × Option ℕ) → List ℕ → Option ℕ → Option ℕ
device_number none number children other before = before
device_number (some id) none children other before = before
device_number (some id) (some number) children other before =
    children_number id children other (written id number other before)

-- What the numbers of the devices make of a key, the last one counting.
abbrev pub current_number : List (List ℕ × Device) → List ℕ → Option ℕ → Option ℕ
current_number [] other before = before
current_number ((id, d) ∷ devices) other before =
    current_number devices other (device_number d.unique_id d.number d.children other before)

map_get-record_over :
    (key other : List ℕ) (number : ℕ) (numbers : List (List ℕ × ℕ)) (found : Option ℕ)
    → map_get key numbers ≡ found
    → map_get other (record_over key number numbers found)
      ≡ written key number other (map_get other numbers)
unfolding record_over
map_get-record_over key other number numbers none h = map_get-map_set key other number numbers
map_get-record_over key other number numbers (some stored) h =
    elim (Bool-cases (stored == number)) [
      | inl e ↦ elim (Bool-cases (same_text key other)) [
        | inl s ↦
            rw (e, s)
              (subst (λ k. map_get k numbers ≡ some number) ((same_text_iff key other).0 s)
                (h ∙ ap some ((==_iff stored number).0 e)))
        | inr s ↦ rw (e, s) refl
      ]
      | inr e ↦ rw e (map_get-map_set key other number numbers)
    ]

map_get-record_number :
    (key other : List ℕ) (number : ℕ) (numbers : List (List ℕ × ℕ))
    → map_get other (record_number key number numbers)
      ≡ written key number other (map_get other numbers)
unfolding record_number
map_get-record_number key other number numbers =
    map_get-record_over key other number numbers (map_get key numbers) refl

map_get-record_children :
    (id other : List ℕ) (children : List (Option (List ℕ) × Option ℕ)) (numbers : List (List ℕ × ℕ))
    → map_get other (record_children id children numbers)
      ≡ children_number id children other (map_get other numbers)
unfolding record_children
map_get-record_children id other [] numbers = refl
map_get-record_children id other ((some (c ∷ child), some (suc number)) ∷ children) numbers =
    let key = id ++ separator ++ (c ∷ child) in
    map_get-record_children id other children (record_number key (suc number) numbers)
    ∙ ap (children_number id children other) (map_get-record_number key other (suc number) numbers)
map_get-record_children id other ((none, number) ∷ children) numbers =
    map_get-record_children id other children numbers
map_get-record_children id other ((some [], number) ∷ children) numbers =
    map_get-record_children id other children numbers
map_get-record_children id other ((some (c ∷ child), none) ∷ children) numbers =
    map_get-record_children id other children numbers
map_get-record_children id other ((some (c ∷ child), some zero) ∷ children) numbers =
    map_get-record_children id other children numbers

map_get-record_numbered :
    (unique : Option (List ℕ)) (number : Option ℕ) (children : List (Option (List ℕ) × Option ℕ))
    (other : List ℕ) (numbers : List (List ℕ × ℕ))
    → map_get other (record_numbered unique number children numbers)
      ≡ device_number unique number children other (map_get other numbers)
unfolding record_numbered
map_get-record_numbered none number children other numbers = refl
map_get-record_numbered (some id) none children other numbers = refl
map_get-record_numbered (some id) (some number) children other numbers =
    map_get-record_children id other children (record_number id number numbers)
    ∙ ap (children_number id children other) (map_get-record_number id other number numbers)

map_get-record_devices :
    (devices : List (List ℕ × Device)) (other : List ℕ) (numbers : List (List ℕ × ℕ))
    → map_get other (record_devices devices numbers)
      ≡ current_number devices other (map_get other numbers)
unfolding record_devices record_device
map_get-record_devices [] other numbers = refl
map_get-record_devices ((id, d) ∷ devices) other numbers =
    map_get-record_devices devices other (record_device d numbers)
    ∙ ap (current_number devices other)
        (map_get-record_numbered d.unique_id d.number d.children other numbers)

-- After the check, the map has for every key the last number among those of the devices and their
-- children under this key, or if there is none the number that was stored before; the comparison with
-- the stored numbers only spares writes that would change nothing.
pub check_endpoint_numbers_lem :
    (platform : MatterbridgePlatform) (key : List ℕ)
    → map_get key (check_endpoint_numbers platform).0.endpoint_map
      ≡ current_number platform.registered_endpoints key (map_get key platform.endpoint_map)
unfolding check_endpoint_numbers
check_endpoint_numbers_lem platform key =
    map_get-record_devices platform.registered_endpoints key platform.endpoint_map
