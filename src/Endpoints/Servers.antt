-- ===== src/Endpoints/Servers.antt =====
-- matterbridgeEndpointHelpers.ts: which cluster servers an endpoint has after they were added.
use matterbridge.Base.{◌≡◌, Bool, false, ◌&&◌, ◌||◌, not, List, [], ◌∷◌, ◌++◌, arith}
use matterbridge.Clusters.{ClusterType}
use matterbridge.Clusters.Places.{has_cluster, same_cluster, has_cluster-append, has_cluster-same}
use matterbridge.DeviceTypes.{DeviceTypeDefinition}
use matterbridge.Endpoints.{
  MatterbridgeEndpoint, has_cluster_server, created_servers, listed, all_listed, create_servers,
  add_cluster_servers, add_required_cluster_servers, add_optional_cluster_servers,
}

-- A cluster that one of the device types lists.
abbrev pub lists_cluster :
    (DeviceTypeDefinition → List ClusterType) → List DeviceTypeDefinition → ClusterType → Bool
lists_cluster clusters_of [] c = false
lists_cluster clusters_of (d ∷ device_types) c =
    has_cluster (clusters_of d) c || lists_cluster clusters_of device_types c

pub has_cluster-listed :
    (there list clusters : List ClusterType) (c : ClusterType)
    → has_cluster (listed there list clusters) c
      ≡ has_cluster list c || (has_cluster clusters c && not (has_cluster there c))
unfolding listed
has_cluster-listed there list [] c = ground arith
has_cluster-listed there list (d ∷ clusters) c = ground (
  arith,
  has_cluster-listed there list clusters c,
  has_cluster-listed there (list ++ (d ∷ [])) clusters c,
  has_cluster-append list (d ∷ []) c,
  has_cluster-same list d c,
  has_cluster-same there d c,
)

pub has_cluster-all_listed :
    (clusters_of : DeviceTypeDefinition → List ClusterType) (there list : List ClusterType)
    (device_types : List DeviceTypeDefinition) (c : ClusterType)
    → has_cluster (all_listed clusters_of there list device_types) c
      ≡ has_cluster list c
        || (lists_cluster clusters_of device_types c && not (has_cluster there c))
unfolding all_listed
has_cluster-all_listed clusters_of there list [] c = ground arith
has_cluster-all_listed clusters_of there list (d ∷ device_types) c = ground (
  arith,
  has_cluster-all_listed clusters_of there (listed there list (clusters_of d)) device_types c,
  has_cluster-listed there list (clusters_of d) c,
)

-- What matter.js promises of `behaviors.require`: the server is there then, and no other has changed.
abbrev pub Requires : (ClusterType → List ClusterType → List ClusterType) → Type 0
Requires require =
    (c : ClusterType) (servers : List ClusterType) (d : ClusterType)
    → has_cluster (require c servers) d ≡ has_cluster servers d || same_cluster c d

module _ (require : ClusterType → List ClusterType → List ClusterType) (h : Requires require) where
  has_cluster-create_servers :
      (created server_list servers : List ClusterType) (c : ClusterType)
      → has_cluster (create_servers require created server_list servers) c
        ≡ has_cluster servers c || (has_cluster created c && has_cluster server_list c)
  unfolding create_servers
  has_cluster-create_servers [] server_list servers c = ground arith
  has_cluster-create_servers (d ∷ created) server_list servers c = ground (
    arith,
    has_cluster-create_servers created server_list servers c,
    has_cluster-create_servers created server_list (require d servers) c,
    h d servers c,
    has_cluster-same server_list d c,
  )

  -- The servers after addClusterServers.
  pub add_cluster_servers_lem :
      (endpoint : MatterbridgeEndpoint) (server_list : List ClusterType) (c : ClusterType)
      → has_cluster_server (add_cluster_servers require endpoint server_list) c
        ≡ has_cluster_server endpoint c
          || (has_cluster created_servers c && has_cluster server_list c)
  unfolding add_cluster_servers has_cluster_server
  add_cluster_servers_lem endpoint server_list c =
      has_cluster-create_servers created_servers server_list endpoint.servers c

  create_servers-twice :
      (created servers required optional : List ClusterType) (c : ClusterType) (r o : Bool)
      → has_cluster required c ≡ r && not (has_cluster servers c)
      → has_cluster optional c
        ≡ o && not (has_cluster (create_servers require created required servers) c)
      → has_cluster
          (create_servers require created optional
            (create_servers require created required servers))
          c
        ≡ has_cluster servers c || (has_cluster created c && (r || o))
  create_servers-twice created servers required optional c r o k l = ground (
    arith,
    k,
    l,
    has_cluster-create_servers created required servers c,
    has_cluster-create_servers created optional (create_servers require created required servers) c,
  )

  -- After the required and the optional servers were added, an endpoint has exactly the servers that
  -- it had before, and those that one of its device types requires or allows and for which
  -- addClusterServers creates one; provided that matter.js adds the server that it is asked for, and
  -- no other.
  pub add_required_cluster_servers_lem :
      (endpoint : MatterbridgeEndpoint) (c : ClusterType)
      → has_cluster_server
          (add_optional_cluster_servers require (add_required_cluster_servers require endpoint))
          c
        ≡ has_cluster_server endpoint c
          || (has_cluster created_servers c
              && (lists_cluster (λ d. d.required_server_clusters) endpoint.device_types c
                  || lists_cluster (λ d. d.optional_server_clusters) endpoint.device_types c))
  unfolding add_required_cluster_servers add_optional_cluster_servers add_cluster_servers
      has_cluster_server
  add_required_cluster_servers_lem endpoint c =
      let required =
        all_listed (λ d. d.required_server_clusters) endpoint.servers [] endpoint.device_types in
      let servers = create_servers require created_servers required endpoint.servers in
      create_servers-twice created_servers endpoint.servers required
        (all_listed (λ d. d.optional_server_clusters) servers [] endpoint.device_types) c
        (lists_cluster (λ d. d.required_server_clusters) endpoint.device_types c)
        (lists_cluster (λ d. d.optional_server_clusters) endpoint.device_types c)
        (has_cluster-all_listed (λ d. d.required_server_clusters) endpoint.servers []
          endpoint.device_types c)
        (has_cluster-all_listed (λ d. d.optional_server_clusters) servers [] endpoint.device_types
          c)
