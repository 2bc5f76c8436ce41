-- ===== src/Endpoints/ClusterStates.antt =====
-- matterbridgeEndpointHelpers.ts: the state of a cluster as a whole, and the events of a cluster. setStateOf
-- of matter.js is a parameter; an event that is emitted is one that the behavior of the agent emits.
use matterbridge.Base.{
  ℕ, ◌≡◌, refl, sym, ap, subst, ◌∙◌, inl, inr, Bool, true, false, ◌||◌, not, Option, none, some,
  List, [], ◌∷◌, arith, if◌then◌else◌, Bool-cases, Result, ok, ◌>>=◌, map_get, same_text, same_text,
  map_get, same_text,
}
use matterbridge.Values.Copies.{deep_copy}
use matterbridge.Endpoints.Attributes.{
  looked, ClusterReference, Failure, Attributes, State, StatefulEndpoint, lookup, located, snapshot,
  get_behavior, get_attribute, lowercase_first_letter,
}

-- The behavior of a cluster, on an endpoint whose construction is active.
unfoldable pub active_behavior : Option (List ℕ) → StatefulEndpoint → Option (List ℕ)
active_behavior none endpoint = none
active_behavior (some cluster) endpoint = if not endpoint.is_active then none else some cluster

unfoldable pub snapshot_attributes : Attributes → Attributes
unfolding deep_copy
snapshot_attributes [] = []
snapshot_attributes ((name, value) ∷ attributes) =
    (name, deep_copy value) ∷ snapshot_attributes attributes

unfoldable pub snapshot_state : Option Attributes → Option Attributes
unfolding snapshot_attributes
snapshot_state none = none
snapshot_state (some attributes) = some (snapshot_attributes attributes)

unfoldable pub state_of : Option (List ℕ) → StatefulEndpoint → Option Attributes
unfolding snapshot_state
state_of none endpoint = none
state_of (some cluster) endpoint = snapshot_state (map_get cluster endpoint.state)

-- An event of a cluster, with its payload.
pub record EmittedEvent : Type 0 where
  pub cluster : List ℕ
  pub event : List ℕ
  pub payload : Attributes

-- `clusterName in events && event in events[clusterName]`.
unfoldable pub has_event : List ℕ → Option (List (List ℕ)) → Bool
has_event event none = false
has_event event (some []) = false
has_event event (some (e ∷ events)) = same_text e event || has_event event (some events)

unfoldable pub emitted_event :
    Option (List ℕ) → List ℕ → Attributes → List (List ℕ × List (List ℕ)) → Option EmittedEvent
unfolding has_event
emitted_event none event payload events = none
emitted_event (some cluster) event payload events =
    if has_event event (map_get cluster events)
    then some (record { cluster = cluster; event = event; payload = payload })
    else none

module _ (cluster_name_by_id : ℕ → List ℕ) where
  unfoldable pub get_cluster : ClusterReference → StatefulEndpoint → Option Attributes
  unfolding get_behavior active_behavior state_of
  get_cluster cluster endpoint =
      state_of (active_behavior (get_behavior cluster_name_by_id cluster endpoint) endpoint)
        endpoint

  -- What it emits, which is also whether it returns true.
  unfoldable pub trigger_event :
      ClusterReference
      → List ℕ
      → Attributes
      → List (List ℕ × List (List ℕ))
      → StatefulEndpoint
      → Option EmittedEvent
  unfolding get_behavior active_behavior emitted_event
  trigger_event cluster event payload events endpoint =
      emitted_event (active_behavior (get_behavior cluster_name_by_id cluster endpoint) endpoint)
        event payload events

  module _ (set_state_of : List ℕ → Attributes → State → Result Failure State) where
    unfoldable pub set_state_of_behavior :
        Option (List ℕ) → Attributes → StatefulEndpoint → Result Failure (Bool × StatefulEndpoint)
    set_state_of_behavior none value endpoint = ok (false, endpoint)
    set_state_of_behavior (some cluster) value endpoint = do
      state ← set_state_of cluster value endpoint.state
      ok (true, record endpoint { state = state })

    unfoldable pub set_cluster :
        ClusterReference → Attributes → StatefulEndpoint → Result Failure (Bool × StatefulEndpoint)
    unfolding get_behavior active_behavior set_state_of_behavior
    set_cluster cluster value endpoint =
        set_state_of_behavior
          (active_behavior (get_behavior cluster_name_by_id cluster endpoint) endpoint) value
          endpoint

map_get-snapshot_attributes :
    (name : List ℕ) (attributes : Attributes)
    → map_get name (snapshot_attributes attributes) ≡ snapshot (map_get name attributes)
unfolding map_get snapshot_attributes snapshot
map_get-snapshot_attributes name [] = refl
map_get-snapshot_attributes name ((n, v) ∷ attributes) = elim (Bool-cases (same_text n name)) [
  | inl e ↦ rw e refl
  | inr e ↦ rw e (map_get-snapshot_attributes name attributes)
]

looked_lem :
    (attribute : List ℕ) (found : Option Attributes) (attributes : Attributes)
    → snapshot_state found ≡ some attributes
    → (looked attribute found >>= λ value. ok (snapshot value)) ≡ ok (map_get attribute attributes)
unfolding snapshot_state
looked_lem attribute none attributes h = cc
looked_lem attribute (some values) attributes h =
    let same : snapshot_attributes values ≡ attributes = cc in
    ap ok (sym (map_get-snapshot_attributes attribute values) ∙ ap (map_get attribute) same)

state_of_lem :
    (behavior : Option (List ℕ)) (attribute : List ℕ) (endpoint : StatefulEndpoint)
    (attributes : Attributes)
    → state_of (active_behavior behavior endpoint) endpoint ≡ some attributes
    → (located behavior attribute endpoint >>= λ found. ok (snapshot found))
      ≡ ok (map_get (lowercase_first_letter attribute) attributes)
unfolding state_of active_behavior located lookup
state_of_lem none attribute endpoint attributes h = cc
state_of_lem (some cluster) attribute endpoint attributes h = elim (Bool-cases endpoint.is_active) [
  | inl e ↦
      let active : active_behavior (some cluster) endpoint ≡ some cluster = rw e refl in
      rw e (
        looked_lem (lowercase_first_letter attribute) (map_get cluster endpoint.state) attributes
          (subst (λ behavior. state_of behavior endpoint ≡ some attributes) active h))
  | inr e ↦
      let inactive : active_behavior (some cluster) endpoint ≡ none = rw e refl in
      let nothing = subst (λ behavior. state_of behavior endpoint ≡ some attributes) inactive h in
      absurd (ground (arith, nothing))
]

pub get_attribute-get_cluster :
    (cluster_name_by_id : ℕ → List ℕ) (cluster : ClusterReference) (attribute : List ℕ)
    (endpoint : StatefulEndpoint) (attributes : Attributes)
    → get_cluster cluster_name_by_id cluster endpoint ≡ some attributes
    → get_attribute cluster_name_by_id cluster attribute endpoint
      ≡ ok (map_get (lowercase_first_letter attribute) attributes)
unfolding get_cluster get_attribute
get_attribute-get_cluster cluster_name_by_id cluster attribute endpoint attributes h =
    state_of_lem (get_behavior cluster_name_by_id cluster endpoint) attribute endpoint attributes h
