-- ===== src/Selection/Lists.antt =====
-- matterbridgePlatform.ts: which devices and entities the lists let pass.
use matterbridge.Base.{
  ℕ, ◌<◌, ◌≡◌, refl, sym, ◌≢◌, ◌↔◌, ◌⊎◌, inl, inr, true, false, ◌&&◌, not, Option, none, some, List,
  [], ◌∷◌, arith, Bool-cases, All, map_get, map_has, same_text_iff,
}
use matterbridge.Selection.{
  PlatformConfig, is_valid_array, values_of, is_in, count_in, black_list_blocked, white_list_passed,
  validate_device, finds, device_entities, validate_entity,
}

-- Some element meets a predicate.
abbrev pub Any : {A : Type 0} → (A → Type 0) → List A → Type 0
Any P [] = true ≡ false
Any P (x ∷ xs) = P x ⊎ Any P xs

-- A text is one of a list.
abbrev pub IsIn : List ℕ → List (List ℕ) → Type 0
IsIn text = Any (λ t. t ≡ text)

is_in_iff : (text : List ℕ) (list : List (List ℕ)) → (is_in text list ≡ true) ↔ IsIn text list
unfolding is_in
is_in_iff text [] = (λ h. cc, λ h. cc)
is_in_iff text (t ∷ ts) = ground (arith, same_text_iff t text, is_in_iff text ts)

count_in_zero : (list ds : List (List ℕ)) → (count_in list ds ≡ 0) ↔ All (λ d. ¬ IsIn d list) ds
unfolding count_in
count_in_zero list [] = (λ h. tt, λ h. refl)
count_in_zero list (d ∷ ds) = ground (arith, is_in_iff d list, count_in_zero list ds)

count_in_positive : (list ds : List (List ℕ)) → (0 < count_in list ds) ↔ Any (λ d. IsIn d list) ds
unfolding count_in
count_in_positive list [] = ground arith
count_in_positive list (d ∷ ds) = ground (arith, is_in_iff d list, count_in_positive list ds)

valid_list_lem :
    {A : Type 0} (o : Option (List A))
    → ((is_valid_array o 1 ≡ true) × (values_of o ≢ []))
      ⊎ ((is_valid_array o 1 ≡ false) × (values_of o ≡ []))
unfolding is_valid_array values_of
valid_list_lem none = inr (refl, refl)
valid_list_lem (some []) = inr (refl, refl)
valid_list_lem (some (x ∷ xs)) = inl (ground arith, λ e. cc)

count_in_none : (ds : List (List ℕ)) → count_in [] ds ≡ 0
unfolding count_in is_in
count_in_none [] = refl
count_in_none (d ∷ ds) = count_in_none ds

black_list_blocked_lem :
    (c : PlatformConfig) (ds : List (List ℕ))
    → black_list_blocked c ds ≡ count_in (values_of c.black_list) ds
unfolding black_list_blocked
black_list_blocked_lem c ds = elim (valid_list_lem c.black_list) [
  | inl e ↦ rw (e.0) refl
  | inr e ↦ rw (e.0, e.1) (sym (count_in_none ds))
]

white_list_passed_lem :
    (c : PlatformConfig) (ds : List (List ℕ))
    → (0 < white_list_passed c ds)
      ↔ ((values_of c.white_list ≡ []) ⊎ (0 < count_in (values_of c.white_list) ds))
unfolding white_list_passed
white_list_passed_lem c ds = elim (valid_list_lem c.white_list) [
  | inl e ↦ rw (e.0) (inr, λ h. elim h [ inl k ↦ absurd (e.1 k) | inr k ↦ k ])
  | inr e ↦ rw (e.0) ((λ h. inl e.1), λ h. omega arith)
]

-- A device passes exactly if none of its names is on the black list, and the white list is missing or
-- empty or has one of its names.
pub validate_device_iff :
    (c : PlatformConfig) (device : List (List ℕ))
    → (validate_device c device ≡ true) ↔ (
        All (λ d. ¬ IsIn d (values_of c.black_list)) device
        × ((values_of c.white_list ≡ []) ⊎ Any (λ d. IsIn d (values_of c.white_list)) device))
unfolding validate_device
validate_device_iff c device = ground (
  arith,
  black_list_blocked_lem c device,
  count_in_zero (values_of c.black_list) device,
  white_list_passed_lem c device,
  count_in_positive (values_of c.white_list) device,
)

finds_lem :
    (entity : List ℕ) (list : List (List ℕ))
    → entity ≢ []
    → (finds entity list ≡ true) ↔ IsIn entity list
unfolding finds
finds_lem [] list h = absurd (h refl)
finds_lem (c ∷ cs) list h = is_in_iff (c ∷ cs) list

device_entities_lem :
    (device : List ℕ) (entries : List (List ℕ × List (List ℕ)))
    → map_has device entries ≡ false
    → device_entities device entries ≡ []
unfolding device_entities map_has map_get
device_entities_lem device [] h = refl
device_entities_lem device ((k, v) ∷ entries) h = ground (arith, device_entities_lem device entries)

no_entities : (device : List ℕ) → device_entities device [] ≡ []
unfolding device_entities map_get
no_entities device = refl

entity_blocked_lem :
    (o : Option (List (List ℕ))) (entity : List ℕ)
    → entity ≢ []
    → ((is_valid_array o 1 && finds entity (values_of o)) ≡ true) ↔ IsIn entity (values_of o)
entity_blocked_lem o entity h = elim (valid_list_lem o) [
  | inl e ↦ rw (e.0) (finds_lem entity (values_of o) h)
  | inr e ↦ rw (e.0, e.1) ((λ k. cc), λ k. cc)
]

entity_missing_lem :
    (o : Option (List (List ℕ))) (entity : List ℕ)
    → entity ≢ []
    → ((is_valid_array o 1 && not (finds entity (values_of o))) ≡ false)
      ↔ ((values_of o ≡ []) ⊎ IsIn entity (values_of o))
entity_missing_lem o entity h = elim (valid_list_lem o) [
  | inl e ↦ rw (e.0) (ground (arith, finds_lem entity (values_of o) h, e.1))
  | inr e ↦ rw (e.0) ((λ k. inl e.1), λ k. refl)
]

device_blocked_lem :
    (o : Option (List (List ℕ × List (List ℕ)))) (device entity : List ℕ)
    → ((is_valid_array o 1
          && (map_has device (values_of o) && is_in entity (device_entities device (values_of o))))
        ≡ true)
      ↔ IsIn entity (device_entities device (values_of o))
device_blocked_lem o device entity = elim (valid_list_lem o) [
  | inl e ↦ rw (e.0) (elim (Bool-cases (map_has device (values_of o))) [
    | inl k ↦ rw k (is_in_iff entity (device_entities device (values_of o)))
    | inr k ↦ rw (k, device_entities_lem device (values_of o) k) ((λ x. cc), λ x. cc)
  ])
  | inr e ↦ rw (e.0, e.1, no_entities device) ((λ k. cc), λ k. cc)
]

-- An entity with a name passes exactly if it is not on the entity black list, the entity white list is
-- missing or empty or has it, and it is not on the black list of its device.
pub validate_entity_iff :
    (c : PlatformConfig) (device entity : List ℕ)
    → entity ≢ []
    → (validate_entity c device entity ≡ true) ↔ (
        (¬ IsIn entity (values_of c.entity_black_list))
        × ((values_of c.entity_white_list ≡ []) ⊎ IsIn entity (values_of c.entity_white_list))
        × (¬ IsIn entity (device_entities device (values_of c.device_entity_black_list))))
unfolding validate_entity
validate_entity_iff c device entity h = ground (
  arith,
  entity_blocked_lem c.entity_black_list entity h,
  entity_missing_lem c.entity_white_list entity h,
  device_blocked_lem c.device_entity_black_list device entity,
)
