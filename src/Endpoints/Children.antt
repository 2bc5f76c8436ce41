-- ===== src/Endpoints/Children.antt =====
-- packages/core/src/matterbridgeEndpoint.ts: the child endpoints of an endpoint, and the id that the
-- constructor gives to a child of some name. The MD5 hash of generateUniqueId, the servers that
-- matter.js adds and the parts of an endpoint are parameters.
use matterbridge.Base.{
  ℕ, zero, suc, Bool, true, false, ◌&&◌, ◌||◌, not, Option, none, some, List, [], ◌∷◌, leb, ◌==◌,
  if◌then◌else◌, length, get_elem?, map_get, map_set,
}
use matterbridge.Clusters.{ClusterType}
use matterbridge.Clusters.Places.{has_cluster, same_cluster}
use matterbridge.DeviceTypes.{DeviceTypeDefinition}
use matterbridge.Endpoints.{MatterbridgeEndpoint, new_endpoint, all_listed, add_cluster_servers}

-- The ranges of checkNotLatinCharacters, by their first and last code.
abbrev pub non_latin : List (ℕ × ℕ)
non_latin =
    (1024, 1279)
    ∷ (1280, 1327)
    ∷ (11904, 40959)
    ∷ (44032, 55215)
    ∷ (1536, 1791)
    ∷ (1872, 1919)
    ∷ (1424, 1535)
    ∷ (2304, 2431)
    ∷ (3584, 3711)
    ∷ (4608, 4991)
    ∷ []

unfoldable pub in_ranges : List (ℕ × ℕ) → ℕ → Bool
in_ranges [] c = false
in_ranges ((first, last) ∷ ranges) c = (leb first c && leb c last) || in_ranges ranges c

unfoldable pub check_not_latin_characters : List ℕ → Bool
unfolding in_ranges
check_not_latin_characters [] = false
check_not_latin_characters (c ∷ name) = in_ranges non_latin c || check_not_latin_characters name

-- `replace(/[ .]/g, '')`.
unfoldable pub without_spaces : List ℕ → List ℕ
without_spaces [] = []
without_spaces (c ∷ name) =
    if (c == b' ') || (c == b'.') then without_spaces name else c ∷ without_spaces name

-- The first place of an id in a list is cut out: `list.splice(list.indexOf(id), 1)`.
unfoldable pub cut : List ClusterType → ClusterType → List ClusterType
cut [] c = []
cut (d ∷ list) c = if same_cluster d c then list else d ∷ cut list c

-- A round of forEach: an id that the endpoint has is cut out. A place that is not there any more is
-- passed over.
unfoldable pub cut_present :
    List ClusterType → Option ClusterType → List ClusterType → List ClusterType
unfolding cut
cut_present there none list = list
cut_present there (some c) list = if not (has_cluster there c) then list else cut list c

-- The rounds of forEach, one for each place that the list had at first. Cutting moves the ids behind
-- by one place, so that the next one is not visited.
unfoldable pub cut_out : List ClusterType → ℕ → ℕ → List ClusterType → List ClusterType
unfolding cut_present
cut_out there zero index list = list
cut_out there (suc rounds) index list =
    cut_out there rounds (suc index) (cut_present there (get_elem? list index) list)

abbrev pub for_each : List ClusterType → List ClusterType → List ClusterType
for_each there list = cut_out there (length list) 0 list

abbrev pub Children : Type 0
Children = List (List ℕ × MatterbridgeEndpoint)

unfoldable pub get_child_endpoint_by_id : List ℕ → Children → Option MatterbridgeEndpoint
get_child_endpoint_by_id id children = map_get id children

-- The list of servers once the required ones are pushed and those of the child cut out, by one
-- loop for a new child and by two for one that is there.
unfoldable pub server_list :
    Bool → MatterbridgeEndpoint → List DeviceTypeDefinition → List ClusterType → List ClusterType
unfolding all_listed cut_out
server_list already_added child definitions list =
    let pushed = all_listed (λ d. d.required_server_clusters) [] list definitions in
    let once = for_each child.servers pushed in
    if already_added then for_each child.servers once else once

module _ (generate_unique_id : List ℕ → List ℕ) where
  -- The id that the constructor gives to an endpoint.
  unfoldable pub endpoint_id : List ℕ → List ℕ
  unfolding check_not_latin_characters without_spaces
  endpoint_id name =
      without_spaces (if check_not_latin_characters name then generate_unique_id name else name)

  module _ (add_part : List ℕ → MatterbridgeEndpoint → Children → Children) where
    -- The child that is returned, and the children; a child that was found is the last argument.
    unfoldable pub child_or_add :
        List ℕ
        → List DeviceTypeDefinition
        → Children
        → Option MatterbridgeEndpoint
        → MatterbridgeEndpoint × Children
    unfolding endpoint_id new_endpoint
    child_or_add name definitions children (some child) = (child, children)
    child_or_add name definitions children none =
        let child = new_endpoint definitions in (child, add_part (endpoint_id name) child children)

    unfoldable pub add_child_device_type :
        List ℕ → List DeviceTypeDefinition → Children → MatterbridgeEndpoint × Children
    unfolding get_child_endpoint_by_id child_or_add
    add_child_device_type name definitions children =
        child_or_add name definitions children (get_child_endpoint_by_id name children)

    module _ (require : ClusterType → List ClusterType → List ClusterType) where
      unfoldable pub child_with_servers :
          List ℕ
          → List DeviceTypeDefinition
          → List ClusterType
          → Children
          → Option MatterbridgeEndpoint
          → MatterbridgeEndpoint × Children
      unfolding server_list add_cluster_servers endpoint_id new_endpoint
      child_with_servers name definitions list children (some child) =
          let next = add_cluster_servers require child (server_list true child definitions list) in
          (next, map_set name next children)
      child_with_servers name definitions list children none =
          let child = new_endpoint definitions in
          let next = add_cluster_servers require child (server_list false child definitions list) in
          (next, add_part (endpoint_id name) next children)

      unfoldable pub add_child_device_type_with_cluster_server :
          List ℕ
          → List DeviceTypeDefinition
          → List ClusterType
          → Children
          → MatterbridgeEndpoint × Children
      unfolding get_child_endpoint_by_id child_with_servers
      add_child_device_type_with_cluster_server name definitions list children =
          child_with_servers name definitions list children (get_child_endpoint_by_id name children)
