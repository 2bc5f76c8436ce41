-- ===== src/Endpoints/Clients.antt =====
-- matterbridgeEndpointHelpers.ts: which cluster clients an endpoint has after they were added.
use matterbridge.Base.{
  ◌≡◌, refl, ap, ◌∙◌, Bool, true, ◌&&◌, ◌||◌, Option, none, some, List, [], ◌∷◌, ◌++◌, arith,
}
use matterbridge.Clusters.{ClusterType}
use matterbridge.Clusters.Places.{has_cluster, place, has_cluster-append, has_cluster-same}
use matterbridge.Endpoints.{
  MatterbridgeEndpoint, client_behaviors, has_client_behavior, all_listed, distinct_clusters,
  binding_clients, add_client_clusters, add_cluster_clients, add_required_cluster_clients,
  add_optional_cluster_clients,
}
use matterbridge.Endpoints.Servers.{lists_cluster, has_cluster-all_listed}

-- The client list of an endpoint, which is empty before MatterbridgeBindingServer is required.
abbrev pub clients : MatterbridgeEndpoint → List ClusterType
clients endpoint = elim endpoint.binding [ none ↦ [] | some client_list ↦ client_list ]

has_cluster-distinct_clusters :
    (seen clusters : List ClusterType) (c : ClusterType)
    → has_cluster (distinct_clusters seen clusters) c ≡ has_cluster seen c || has_cluster clusters c
unfolding distinct_clusters
has_cluster-distinct_clusters seen [] c = ground arith
has_cluster-distinct_clusters seen (d ∷ clusters) c = ground (
  arith,
  has_cluster-distinct_clusters seen clusters c,
  has_cluster-distinct_clusters (seen ++ (d ∷ [])) clusters c,
  has_cluster-append seen (d ∷ []) c,
  has_cluster-same seen d c,
)

has_cluster-binding_clients :
    (binding : Option (List ClusterType)) (client_list : List ClusterType) (c : ClusterType)
    → has_cluster (binding_clients binding client_list) c
      ≡ has_cluster (elim binding [ none ↦ [] | some existing ↦ existing ]) c
        || has_cluster client_list c
unfolding binding_clients
has_cluster-binding_clients none client_list c = refl
has_cluster-binding_clients (some existing) client_list c =
    has_cluster-distinct_clusters [] (existing ++ client_list) c
    ∙ has_cluster-append existing client_list c

has_client_behavior-same :
    (c d : ClusterType) → place c ≡ place d → has_client_behavior c ≡ has_client_behavior d
unfolding has_client_behavior
has_client_behavior-same c d h = has_cluster-same client_behaviors c d h

has_cluster-add_client_clusters :
    (client_clusters client_list : List ClusterType) (c : ClusterType)
    → has_cluster (add_client_clusters client_clusters client_list) c
      ≡ has_cluster client_clusters c || (has_cluster client_list c && has_client_behavior c)
unfolding add_client_clusters
has_cluster-add_client_clusters client_clusters [] c = ground arith
has_cluster-add_client_clusters client_clusters (d ∷ client_list) c = ground (
  arith,
  has_cluster-add_client_clusters client_clusters client_list c,
  has_cluster-add_client_clusters (client_clusters ++ (d ∷ [])) client_list c,
  has_cluster-append client_clusters (d ∷ []) c,
  has_cluster-same client_clusters d c,
  has_client_behavior-same d c,
)

add_cluster_clients_lem :
    (endpoint : MatterbridgeEndpoint) (client_list : List ClusterType) (c : ClusterType)
    → (has_cluster (clients (add_cluster_clients endpoint client_list)) c
        ≡ has_cluster (clients endpoint) c || has_cluster client_list c)
      × (has_cluster (add_cluster_clients endpoint client_list).client_clusters c
          ≡ has_cluster endpoint.client_clusters c
            || (has_cluster client_list c && has_client_behavior c))
unfolding add_cluster_clients
add_cluster_clients_lem endpoint [] c = (ground arith, ground arith)
add_cluster_clients_lem endpoint (d ∷ client_list) c = (
  has_cluster-binding_clients endpoint.binding (d ∷ client_list) c,
  has_cluster-add_client_clusters endpoint.client_clusters (d ∷ client_list) c,
)

add_cluster_clients-device_types :
    (endpoint : MatterbridgeEndpoint) (client_list : List ClusterType)
    → (add_cluster_clients endpoint client_list).device_types ≡ endpoint.device_types
unfolding add_cluster_clients
add_cluster_clients-device_types endpoint [] = refl
add_cluster_clients-device_types endpoint (d ∷ client_list) = refl

abbrev pub lists_client : MatterbridgeEndpoint → ClusterType → Bool
lists_client endpoint c =
    lists_cluster (λ d. d.required_client_clusters) endpoint.device_types c
    || lists_cluster (λ d. d.optional_client_clusters) endpoint.device_types c

-- After the required and the optional clients were added, the client list of an endpoint has exactly
-- the clusters that it had before and those that one of its device types requires or allows; and
-- those with a client behavior are the ones added to its client clusters.
pub add_required_cluster_clients_lem :
    (endpoint : MatterbridgeEndpoint) (c : ClusterType)
    → (has_cluster
          (clients (add_optional_cluster_clients (add_required_cluster_clients endpoint)))
          c
        ≡ has_cluster (clients endpoint) c || lists_client endpoint c)
      × (has_cluster
            (add_optional_cluster_clients (add_required_cluster_clients endpoint)).client_clusters
            c
          ≡ has_cluster endpoint.client_clusters c
            || (lists_client endpoint c && has_client_behavior c))
unfolding add_required_cluster_clients add_optional_cluster_clients
add_required_cluster_clients_lem endpoint c =
    let required = all_listed (λ d. d.required_client_clusters) [] [] endpoint.device_types in
    let with_required = add_cluster_clients endpoint required in
    let optional = all_listed (λ d. d.optional_client_clusters) [] [] with_required.device_types in
    let required_listed =
      has_cluster-all_listed (λ d. d.required_client_clusters) [] [] endpoint.device_types c in
    let optional_listed =
      has_cluster-all_listed (λ d. d.optional_client_clusters) [] [] with_required.device_types c
      ∙ ap (λ device_types. lists_cluster (λ d. d.optional_client_clusters) device_types c && true)
          (add_cluster_clients-device_types endpoint required) in
    let one = add_cluster_clients_lem endpoint required c in
    let two = add_cluster_clients_lem with_required optional c in
    (
      ground (arith, one.0, two.0, required_listed, optional_listed),
      ground (arith, one.1, two.1, required_listed, optional_listed),
    )
