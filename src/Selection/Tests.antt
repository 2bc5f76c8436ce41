-- ===== src/Selection/Tests.antt =====
-- A configuration with every list, and the theorems of the selection there.
use matterbridge.Base.{
  ◌≡◌, refl, ◌↔◌, ◌⊎◌, true, false, none, some, [], ◌∷◌, All, map_get, map_has, same_text,
}
use matterbridge.Selection.{
  PlatformConfig, values_of, device_entities, validate_device, black_list_blocked,
  white_list_passed, is_valid_array, count_in, is_in, finds, validate_entity,
}
use matterbridge.Selection.Lists.{Any, IsIn, validate_device_iff, validate_entity_iff}

names : Unit {0}
unfolding validate_device black_list_blocked white_list_passed is_valid_array values_of count_in
    is_in finds validate_entity device_entities same_text map_has map_get
names = tt

abbrev config : PlatformConfig
config = record {
  black_list = some ((65 ∷ []) ∷ []);
  white_list = some ((65 ∷ []) ∷ (66 ∷ []) ∷ []);
  entity_black_list = some [];
  entity_white_list = none;
  device_entity_black_list = some ((66 ∷ [], (120 ∷ []) ∷ []) ∷ []);
}

-- The black list wins over the white list.
blocked_device : validate_device config ((66 ∷ []) ∷ (65 ∷ []) ∷ []) ≡ false
unfolding names
blocked_device = refl

blocked_entity : validate_entity config (66 ∷ []) (120 ∷ []) ≡ false
unfolding names
blocked_entity = refl

validate_device_iff_example : (validate_device config ((66 ∷ []) ∷ []) ≡ true) ↔ (
    All (λ d. ¬ IsIn d (values_of config.black_list)) ((66 ∷ []) ∷ [])
    × ((values_of config.white_list ≡ [])
        ⊎ Any (λ d. IsIn d (values_of config.white_list)) ((66 ∷ []) ∷ [])))
validate_device_iff_example = validate_device_iff config ((66 ∷ []) ∷ [])

validate_entity_iff_example : (validate_entity config (66 ∷ []) (121 ∷ []) ≡ true) ↔ (
    (¬ IsIn (121 ∷ []) (values_of config.entity_black_list))
    × ((values_of config.entity_white_list ≡ [])
        ⊎ IsIn (121 ∷ []) (values_of config.entity_white_list))
    × (¬ IsIn (121 ∷ []) (device_entities (66 ∷ []) (values_of config.device_entity_black_list))))
validate_entity_iff_example = validate_entity_iff config (66 ∷ []) (121 ∷ []) (λ e. cc)
