-- ===== src/Endpoints/StateTests.antt =====
-- An endpoint with the attribute onOff, and the theorems on attributes and labels there.
use matterbridge.Base.{
  ℕ, ◌≡◌, refl, subst, Bool, true, false, none, some, List, [], ◌∷◌, arith, if◌then◌else◌, take,
  Result, ok, err, map_get, map_get-map_set, map_has, map_set, ok-injective, same_text,
  same_text_refl, same_text, map_get, map_has, map_set, same_text,
}
use matterbridge.Values.{boolean, is_object}
use matterbridge.Endpoints.Attributes.{
  by_text, by_behavior, Failure, type_error, Attributes, State, StatefulEndpoint, lookup,
  lowercase_first_letter, get_attribute, update_attribute,
}
use matterbridge.Endpoints.ClusterStates.{get_attribute-get_cluster, get_cluster, trigger_event}
use matterbridge.Endpoints.Updates.{Writes, update_attribute_idem}
use matterbridge.Endpoints.Labels.{add_label, IsLabelList, add_label_lem}

abbrev attributes_of : List ℕ → State → Attributes
attributes_of cluster state = elim (map_get cluster state) [
  | none ↦ []
  | some attributes ↦ attributes
]

abbrev set_state_of : List ℕ → Attributes → State → Result Failure State
set_state_of cluster [] state = ok state
set_state_of cluster ((attribute, value) ∷ attributes) state =
    ok (map_set cluster (map_set attribute value (attributes_of cluster state)) state)

set_state_of-Writes : Writes set_state_of
unfolding lookup
set_state_of-Writes cluster attribute value state next v h =
    subst (λ s. lookup cluster attribute s ≡ ok (some value)) (ok-injective h)
      (rw
        (
          map_get-map_set cluster cluster (map_set attribute value (attributes_of cluster state))
              state,
          same_text_refl cluster,
          map_get-map_set attribute attribute value (attributes_of cluster state),
          same_text_refl attribute,
        )
        refl)

abbrev cluster_name_by_id : ℕ → List ℕ
cluster_name_by_id id = []

abbrev light : List ℕ
light = b'l' ∷ []

abbrev on : List ℕ
on = b'o' ∷ b'n' ∷ []

abbrev lamp : Bool → StatefulEndpoint
lamp state = record {
  is_active = true;
  supported = light ∷ [];
  state = (light, (on, boolean state) ∷ []) ∷ [];
}

lamp_updated :
    update_attribute cluster_name_by_id set_state_of
      (by_text (b'L' ∷ []))
      on
      (boolean true)
      (lamp false)
    ≡ ok (true, lamp true)
unfolding update_attribute map_get map_set same_text
lamp_updated = refl

-- The state of the cluster as a whole has the attribute.
lamp_cluster :
    get_cluster cluster_name_by_id (by_text (b'L' ∷ [])) (lamp true)
    ≡ some ((on, boolean true) ∷ [])
unfolding get_cluster map_get same_text
lamp_cluster = refl

get_attribute-get_cluster_example :
    get_attribute cluster_name_by_id (by_text (b'L' ∷ [])) on (lamp true)
    ≡ ok (map_get (lowercase_first_letter on) ((on, boolean true) ∷ []))
get_attribute-get_cluster_example =
    get_attribute-get_cluster cluster_name_by_id (by_text (b'L' ∷ [])) on (lamp true)
      ((on, boolean true) ∷ []) lamp_cluster

update_attribute_idem_example :
    update_attribute cluster_name_by_id set_state_of
      (by_text (b'L' ∷ []))
      on
      (boolean true)
      (lamp true)
    ≡ ok (false, lamp true)
unfolding is_object
update_attribute_idem_example =
    update_attribute_idem set_state_of set_state_of-Writes cluster_name_by_id (by_text (b'L' ∷ []))
      on (boolean true) (lamp false) (lamp true) true refl lamp_updated

-- A behavior that the endpoint does not support is an error that is thrown.
lamp_without_level :
    get_attribute cluster_name_by_id (by_behavior on) on (lamp true) ≡ err type_error
unfolding get_attribute map_get same_text
lamp_without_level = refl

-- An event of the cluster is emitted.
lamp_event :
    trigger_event cluster_name_by_id (by_text (b'L' ∷ [])) on [] ((light, on ∷ []) ∷ []) (lamp true)
    ≡ some (record { cluster = light; event = on; payload = [] })
unfolding trigger_event map_get same_text
lamp_event = refl

abbrev labels : List (List ℕ × List ℕ)
labels = (light, on) ∷ []

labels-IsLabelList : IsLabelList labels
unfolding map_has
labels-IsLabelList = ((refl, tt), ((omega arith, omega arith), tt))

add_label_lem_example :
    (next : List (List ℕ × List ℕ)) × (add_label true light light (some labels) ≡ some next)
    × IsLabelList next
    × ((other : List ℕ)
        → map_get other next ≡ (
            if same_text (take 16 light) other then some (take 16 light) else map_get other labels))
add_label_lem_example = add_label_lem light light labels labels-IsLabelList
