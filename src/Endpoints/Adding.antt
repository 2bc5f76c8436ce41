-- ===== src/Endpoints/Adding.antt =====
-- matterbridgeEndpoint.ts: what adding child endpoints gives.
use matterbridge.Base.{
  ℕ, zero, suc, ◌≡◌, refl, ◌∙◌, inl, inr, Bool, true, false, ◌&&◌, ◌||◌, Option, none, some, List,
  [], ◌∷◌, arith, Bool-cases, length, get_elem?,
}
use matterbridge.Clusters.{ClusterType}
use matterbridge.Clusters.Places.{has_cluster, same_cluster, has_cluster-same}
use matterbridge.DeviceTypes.{DeviceTypeDefinition}
use matterbridge.Endpoints.{
  MatterbridgeEndpoint, new_endpoint, has_cluster_server, created_servers, all_listed,
  add_cluster_servers,
}
use matterbridge.Endpoints.Servers.{
  lists_cluster, has_cluster-all_listed, Requires, add_cluster_servers_lem,
}
use matterbridge.Endpoints.Children.{
  cut, cut_present, cut_out, for_each, Children, get_child_endpoint_by_id, endpoint_id,
  add_child_device_type, server_list, add_child_device_type_with_cluster_server, child_or_add,
  child_with_servers,
}

has_cluster-cut :
    (list : List ClusterType) (d c : ClusterType)
    → same_cluster d c ≡ false
    → has_cluster (cut list d) c ≡ has_cluster list c
unfolding cut
has_cluster-cut [] d c h = refl
has_cluster-cut (e ∷ list) d c h = ground (arith, h, has_cluster-cut list d c h)

tell_apart :
    (there : List ClusterType) (d c : ClusterType)
    → has_cluster there d ≡ true
    → has_cluster there c ≡ false
    → same_cluster d c ≡ false
tell_apart there d c h k = ground (arith, h, k, has_cluster-same there d c)

has_cluster-cut_present :
    (there : List ClusterType) (at_place : Option ClusterType) (list : List ClusterType)
    (c : ClusterType)
    → has_cluster there c ≡ false
    → has_cluster (cut_present there at_place list) c ≡ has_cluster list c
unfolding cut_present
has_cluster-cut_present there none list c h = refl
has_cluster-cut_present there (some d) list c h = elim (Bool-cases (has_cluster there d)) [
  | inl f ↦ rw f (has_cluster-cut list d c (tell_apart there d c f h))
  | inr f ↦ rw f refl
]

-- The loop loses no cluster that the endpoint lacks, whatever it passes over.
has_cluster-cut_out :
    (there : List ClusterType) (rounds index : ℕ) (list : List ClusterType) (c : ClusterType)
    → has_cluster there c ≡ false
    → has_cluster (cut_out there rounds index list) c ≡ has_cluster list c
unfolding cut_out
has_cluster-cut_out there zero index list c h = refl
has_cluster-cut_out there (suc rounds) index list c h =
    let next = cut_present there (get_elem? list index) list in
    has_cluster-cut_out there rounds (suc index) next c h
    ∙ has_cluster-cut_present there (get_elem? list index) list c h

has_cluster-server_list :
    (already_added : Bool) (child : MatterbridgeEndpoint) (definitions : List DeviceTypeDefinition)
    (list : List ClusterType) (c : ClusterType)
    → has_cluster child.servers c ≡ false
    → has_cluster (server_list already_added child definitions list) c
      ≡ has_cluster list c || lists_cluster (λ d. d.required_server_clusters) definitions c
unfolding server_list
has_cluster-server_list already_added child definitions list c h =
    let pushed = all_listed (λ d. d.required_server_clusters) [] list definitions in
    let once = for_each child.servers pushed in
    let of_pushed =
      has_cluster-all_listed (λ d. d.required_server_clusters) [] list definitions c in
    let of_once = has_cluster-cut_out child.servers (length pushed) 0 pushed c h in
    let of_twice = has_cluster-cut_out child.servers (length once) 0 once c h in
    ground (arith, of_pushed, of_once, of_twice)

module _ (require : ClusterType → List ClusterType → List ClusterType) (h : Requires require) where
  added_servers :
      (already_added : Bool) (child : MatterbridgeEndpoint)
      (definitions : List DeviceTypeDefinition) (list : List ClusterType) (c : ClusterType)
      → has_cluster_server
          (add_cluster_servers require child (server_list already_added child definitions list))
          c
        ≡ has_cluster_server child c
          || (has_cluster created_servers c
              && (has_cluster list c
                  || lists_cluster (λ d. d.required_server_clusters) definitions c))
  unfolding has_cluster_server
  added_servers already_added child definitions list c =
      let added =
        add_cluster_servers_lem require h child (server_list already_added child definitions list)
          c in
      elim (Bool-cases (has_cluster child.servers c)) [
        | inl e ↦ added ∙ rw e refl
        | inr e ↦
            added ∙ rw (e, has_cluster-server_list already_added child definitions list c e) refl
      ]

-- The child that was found, or else a new one.
abbrev pub or_new : List DeviceTypeDefinition → Option MatterbridgeEndpoint → MatterbridgeEndpoint
or_new definitions none = new_endpoint definitions
or_new definitions (some child) = child

-- What the parts of an endpoint promise: a part with a new id is found by it.
abbrev pub Adds : (List ℕ → MatterbridgeEndpoint → Children → Children) → Type 0
Adds add_part =
    (id : List ℕ) (child : MatterbridgeEndpoint) (children : Children)
    → get_child_endpoint_by_id id children ≡ none
    → get_child_endpoint_by_id id (add_part id child children) ≡ some child

module _ (generate_unique_id : List ℕ → List ℕ)
    (add_part : List ℕ → MatterbridgeEndpoint → Children → Children) where
  child_with_servers_lem :
      (require : ClusterType → List ClusterType → List ClusterType)
      → Requires require
      → (name : List ℕ) (definitions : List DeviceTypeDefinition) (list : List ClusterType)
        (children : Children) (found : Option MatterbridgeEndpoint) (c : ClusterType)
      → has_cluster_server
          (child_with_servers generate_unique_id add_part require name definitions list children
            found).0
          c
        ≡ has_cluster_server (or_new definitions found) c
          || (has_cluster created_servers c
              && (has_cluster list c
                  || lists_cluster (λ d. d.required_server_clusters) definitions c))
  unfolding child_with_servers
  child_with_servers_lem require h name definitions list children none c =
      added_servers require h false (new_endpoint definitions) definitions list c
  child_with_servers_lem require h name definitions list children (some child) c =
      added_servers require h true child definitions list c

  -- The child that addChildDeviceTypeWithClusterServer returns has the servers of the child with this
  -- name, or of a new one, and those of the list or required by a device type for which
  -- addClusterServers creates one, although its loop passes over some ids of the list.
  pub add_child_device_type_with_cluster_server_lem :
      (require : ClusterType → List ClusterType → List ClusterType)
      → Requires require
      → (name : List ℕ) (definitions : List DeviceTypeDefinition) (list : List ClusterType)
        (children : Children) (c : ClusterType)
      → has_cluster_server
          (add_child_device_type_with_cluster_server generate_unique_id add_part require name
            definitions list children).0
          c
        ≡ has_cluster_server (or_new definitions (get_child_endpoint_by_id name children)) c
          || (has_cluster created_servers c
              && (has_cluster list c
                  || lists_cluster (λ d. d.required_server_clusters) definitions c))
  unfolding add_child_device_type_with_cluster_server
  add_child_device_type_with_cluster_server_lem require h name definitions list children c =
      child_with_servers_lem require h name definitions list children
        (get_child_endpoint_by_id name children) c

  child_or_add_idem :
      Adds add_part
      → (name : List ℕ) (definitions more : List DeviceTypeDefinition) (children : Children)
      → endpoint_id generate_unique_id name ≡ name
      → (found : Option MatterbridgeEndpoint) → get_child_endpoint_by_id name children ≡ found
      → add_child_device_type generate_unique_id add_part name more
          (child_or_add generate_unique_id add_part name definitions children found).1
        ≡ child_or_add generate_unique_id add_part name definitions children found
  unfolding add_child_device_type child_or_add
  child_or_add_idem h name definitions more children k none e =
      rw (k, h name (new_endpoint definitions) children e) refl
  child_or_add_idem h name definitions more children k (some child) e = rw e refl

  -- Adding a child a second time, under a name that is its own id, returns the child that is there and
  -- changes nothing.
  pub add_child_device_type_idem :
      Adds add_part
      → (name : List ℕ) (definitions more : List DeviceTypeDefinition) (children : Children)
      → endpoint_id generate_unique_id name ≡ name
      → add_child_device_type generate_unique_id add_part name more
          (add_child_device_type generate_unique_id add_part name definitions children).1
        ≡ add_child_device_type generate_unique_id add_part name definitions children
  unfolding add_child_device_type
  add_child_device_type_idem h name definitions more children k =
      child_or_add_idem h name definitions more children k (get_child_endpoint_by_id name children)
        refl
