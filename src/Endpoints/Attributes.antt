-- ===== src/Endpoints/Attributes.antt =====
-- packages/core/src/matterbridgeEndpointHelpers.ts: reading and writing the attributes of an endpoint.
-- The names of the clusters and setStateOf, which may reject, are those of matter.js: parameters.
use matterbridge.Base.{
  ℕ, ◌+◌, Bool, true, false, ◌&&◌, not, Option, none, some, List, [], ◌∷◌, leb, if◌then◌else◌,
  Result, ok, err, ◌>>=◌, map_get, same_text, same_text,
}
use matterbridge.Values.{Value, is_object, strict_equal}
use matterbridge.Values.Equality.{deep_equal}
use matterbridge.Values.Copies.{deep_copy}

-- The argument that names a cluster: its name, its id, its type by its name, or a behavior by its id.
pub data ClusterReference : Type 0 where
  by_text by_type by_behavior : List ℕ → ClusterReference
  by_id : ℕ → ClusterReference

-- `in` on undefined, and a write that matter.js rejects.
pub data Failure : Type 0 where
  type_error rejected : Failure

abbrev pub Attributes : Type 0
Attributes = List (List ℕ × Value)

abbrev pub State : Type 0
State = List (List ℕ × Attributes)

-- Whether the construction is active, the ids of the supported behaviors, and the state.
pub record StatefulEndpoint : Type 0 where
  pub is_active : Bool
  pub supported : List (List ℕ)
  pub state : State

-- For the letters that cluster and attribute names begin with.
unfoldable pub lowercase_first_letter : List ℕ → List ℕ
lowercase_first_letter [] = []
lowercase_first_letter (c ∷ name) = (if leb b'A' c && leb c b'Z' then c + 32 else c) ∷ name

unfoldable pub supported_behavior : List ℕ → List (List ℕ) → Option (List ℕ)
supported_behavior name [] = none
supported_behavior name (id ∷ supported) =
    if same_text id name then some id else supported_behavior name supported

-- `attribute in state[clusterName]`, with the value that is there.
abbrev pub looked : List ℕ → Option Attributes → Result Failure (Option Value)
looked attribute none = err type_error
looked attribute (some attributes) = ok (map_get attribute attributes)

unfoldable pub lookup : List ℕ → List ℕ → State → Result Failure (Option Value)
lookup cluster attribute state = looked attribute (map_get cluster state)

-- The test of updateAttribute that the value is there already.
unfoldable pub is_unchanged : Value → Value → Bool
unfolding is_object deep_equal strict_equal
is_unchanged old value = if is_object old then deep_equal [] old value else strict_equal old value

-- The checks that the operations share, and the value of the attribute; none if one of them fails.
unfoldable pub located : Option (List ℕ) → List ℕ → StatefulEndpoint → Result Failure (Option Value)
unfolding lowercase_first_letter lookup
located none attribute endpoint = ok none
located (some cluster) attribute endpoint =
    if not endpoint.is_active
    then ok none
    else lookup cluster (lowercase_first_letter attribute) endpoint.state

unfoldable pub snapshot : Option Value → Option Value
unfolding deep_copy
snapshot none = none
snapshot (some v) = some (deep_copy v)

module _ (set_state_of : List ℕ → Attributes → State → Result Failure State) where
  -- The write, after which the operation returns true. Without a cluster nothing was found.
  unfoldable pub write :
      Option (List ℕ) → List ℕ → Value → StatefulEndpoint → Result Failure (Bool × StatefulEndpoint)
  unfolding lowercase_first_letter
  write none attribute value endpoint = ok (false, endpoint)
  write (some cluster) attribute value endpoint = do
    state ← set_state_of cluster ((lowercase_first_letter attribute, value) ∷ []) endpoint.state
    ok (true, record endpoint { state = state })

  unfoldable pub set_found :
      Option (List ℕ)
      → List ℕ
      → Value
      → StatefulEndpoint
      → Option Value
      → Result Failure (Bool × StatefulEndpoint)
  unfolding write
  set_found cluster attribute value endpoint none = ok (false, endpoint)
  set_found cluster attribute value endpoint (some old) = write cluster attribute value endpoint

  unfoldable pub update_found :
      Option (List ℕ)
      → List ℕ
      → Value
      → StatefulEndpoint
      → Option Value
      → Result Failure (Bool × StatefulEndpoint)
  unfolding write is_unchanged
  update_found cluster attribute value endpoint none = ok (false, endpoint)
  update_found cluster attribute value endpoint (some old) =
      if is_unchanged old value
      then ok (false, endpoint)
      else write cluster attribute value endpoint

module _ (cluster_name_by_id : ℕ → List ℕ) where
  -- `getBehavior(endpoint, cluster)?.id`.
  unfoldable pub get_behavior : ClusterReference → StatefulEndpoint → Option (List ℕ)
  unfolding lowercase_first_letter supported_behavior
  get_behavior (by_text name) endpoint =
      supported_behavior (lowercase_first_letter name) endpoint.supported
  get_behavior (by_id id) endpoint =
      supported_behavior (lowercase_first_letter (cluster_name_by_id id)) endpoint.supported
  get_behavior (by_type name) endpoint =
      supported_behavior (lowercase_first_letter name) endpoint.supported
  get_behavior (by_behavior id) endpoint = some id

  unfoldable pub get_attribute :
      ClusterReference → List ℕ → StatefulEndpoint → Result Failure (Option Value)
  unfolding get_behavior located snapshot
  get_attribute cluster attribute endpoint = do
    found ← located (get_behavior cluster endpoint) attribute endpoint
    ok (snapshot found)

  module _ (set_state_of : List ℕ → Attributes → State → Result Failure State) where
    unfoldable pub set_attribute :
        ClusterReference
        → List ℕ
        → Value
        → StatefulEndpoint
        → Result Failure (Bool × StatefulEndpoint)
    unfolding get_behavior located set_found
    set_attribute cluster attribute value endpoint = do
      found ← located (get_behavior cluster endpoint) attribute endpoint
      set_found set_state_of (get_behavior cluster endpoint) attribute value endpoint found

    unfoldable pub update_attribute :
        ClusterReference
        → List ℕ
        → Value
        → StatefulEndpoint
        → Result Failure (Bool × StatefulEndpoint)
    unfolding get_behavior located update_found
    update_attribute cluster attribute value endpoint = do
      found ← located (get_behavior cluster endpoint) attribute endpoint
      update_found set_state_of (get_behavior cluster endpoint) attribute value endpoint found
