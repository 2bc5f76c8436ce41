-- ===== src/Platforms/Names.antt =====
-- matterbridgePlatform.ts: the names and ids of the registered devices, under writes and removals.
use matterbridge.Base.{
  ℕ, ◌≡◌, refl, sym, ap, subst, ◌∙◌, inl, inr, false, Option, none, some, List, [], ◌∷◌, arith,
  Bool-cases, All, HasDistinctKeys, map_delete, map_delete-HasDistinctKeys, map_set,
  map_set-HasDistinctKeys, same_text, same_text_iff, map_set-All, map_delete-All, same_text,
  map_delete-HasDistinctKeys, map_set-HasDistinctKeys, HasDistinctKeys, map_delete,
}
use matterbridge.Platforms.{Device, filled, is_named, has_device_name, required}

abbrev pub unwrapped : Option (List ℕ) → List ℕ
unwrapped none = []
unwrapped (some text) = text

abbrev pub name_of : Device → List ℕ
name_of d = unwrapped d.device_name

-- A device stands under its unique id, and has a name.
abbrev pub IsEntry : List ℕ × Device → Type 0
IsEntry e = (e.1.unique_id ≡ some e.0) × (e.1.device_name ≡ some (name_of e.1))

abbrev pub HasDistinctNames : List (List ℕ × Device) → Type 0
HasDistinctNames [] = Unit
HasDistinctNames ((k, d) ∷ devices) =
    (has_device_name (name_of d) devices ≡ false) × HasDistinctNames devices

abbrev pub AreRegistered : List (List ℕ × Device) → Type 0
AreRegistered devices = HasDistinctKeys devices × All IsEntry devices × HasDistinctNames devices

has_device_name-map_set :
    (name id : List ℕ) (d : Device) (devices : List (List ℕ × Device))
    → has_device_name name devices ≡ false
    → is_named name d.device_name ≡ false
    → has_device_name name (map_set id d devices) ≡ false
unfolding has_device_name map_set
has_device_name-map_set name id d [] h k = ground (arith, k)
has_device_name-map_set name id d ((j, e) ∷ devices) h k =
    ground (arith, h, k, has_device_name-map_set name id d devices)

has_device_name-map_delete :
    (name id : List ℕ) (devices : List (List ℕ × Device))
    → has_device_name name devices ≡ false
    → has_device_name name (map_delete id devices) ≡ false
unfolding has_device_name map_delete
has_device_name-map_delete name id [] h = refl
has_device_name-map_delete name id ((j, e) ∷ devices) h =
    ground (arith, h, has_device_name-map_delete name id devices)

-- Names tell two devices apart either way round.
is_named_sym :
    (d e : Device)
    → d.device_name ≡ some (name_of d)
    → e.device_name ≡ some (name_of e)
    → is_named (name_of d) e.device_name ≡ false
    → is_named (name_of e) d.device_name ≡ false
unfolding is_named
is_named_sym d e h k n =
    let apart = subst (λ name. is_named (name_of d) name ≡ false) k n in
    let back : is_named (name_of e) (some (name_of d)) ≡ false = ground (
      arith,
      apart,
      same_text_iff (name_of d) (name_of e),
      same_text_iff (name_of e) (name_of d),
    ) in
    subst (λ name. is_named (name_of e) name ≡ false) (sym h) back

map_set-HasDistinctNames :
    (id : List ℕ) (d : Device) (devices : List (List ℕ × Device))
    → d.device_name ≡ some (name_of d)
    → All IsEntry devices
    → has_device_name (name_of d) devices ≡ false
    → HasDistinctNames devices
    → HasDistinctNames (map_set id d devices)
unfolding has_device_name map_set
map_set-HasDistinctNames id d [] n a h k = (refl, tt)
map_set-HasDistinctNames id d ((j, e) ∷ devices) n a h k = elim (Bool-cases (same_text j id)) [
  | inl s ↦ rw s (ground (arith, h), k.1)
  | inr s ↦ rw s (
    has_device_name-map_set (name_of e) id d devices k.0
        (is_named_sym d e n a.0.1 (ground (arith, h))),
    map_set-HasDistinctNames id d devices n a.1 (ground (arith, h)) k.1,
  )
]

map_delete-HasDistinctNames :
    (id : List ℕ) (devices : List (List ℕ × Device))
    → HasDistinctNames devices
    → HasDistinctNames (map_delete id devices)
unfolding map_delete
map_delete-HasDistinctNames id [] k = tt
map_delete-HasDistinctNames id ((j, e) ∷ devices) k = elim (Bool-cases (same_text j id)) [
  | inl s ↦ rw s k.1
  | inr s ↦ rw s (
    has_device_name-map_delete (name_of e) id devices k.0,
    map_delete-HasDistinctNames id devices k.1,
  )
]

pub filled_lem : (o : Option (List ℕ)) (text : List ℕ) → filled o ≡ some text → o ≡ some text
unfolding filled
filled_lem none text h = h
filled_lem (some []) text h = absurd (ground (arith, h))
filled_lem (some (c ∷ cs)) text h = h

pub named :
    (d : Device) (name : List ℕ)
    → filled d.device_name ≡ some name
    → d.device_name ≡ some (name_of d)
named d name n =
    let here = filled_lem d.device_name name n in here ∙ ap some (sym (ap unwrapped here))

pub required_lem :
    (unique name serial : Option (List ℕ)) (id text : List ℕ)
    → required unique name serial ≡ some (id, text)
    → (unique ≡ some id) × (name ≡ some text)
unfolding required
required_lem none name serial id text h = cc
required_lem (some i) none serial id text h = cc
required_lem (some i) (some n) none id text h = cc
required_lem (some i) (some n) (some s) id text h = (cc, cc)

pub map_set-AreRegistered :
    (id : List ℕ) (d : Device) (devices : List (List ℕ × Device))
    → IsEntry (id, d)
    → has_device_name (name_of d) devices ≡ false
    → AreRegistered devices
    → AreRegistered (map_set id d devices)
map_set-AreRegistered id d devices h n a = (
  map_set-HasDistinctKeys id d devices a.0,
  map_set-All IsEntry id d devices h a.1,
  map_set-HasDistinctNames id d devices h.1 a.1 n a.2,
)

pub map_delete-AreRegistered :
    (id : List ℕ) (devices : List (List ℕ × Device))
    → AreRegistered devices
    → AreRegistered (map_delete id devices)
map_delete-AreRegistered id devices a = (
  map_delete-HasDistinctKeys id devices a.0,
  map_delete-All IsEntry id devices a.1,
  map_delete-HasDistinctNames id devices a.2,
)
