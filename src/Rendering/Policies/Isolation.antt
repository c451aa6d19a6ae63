-- ===== src/Rendering/Policies/Isolation.antt =====
-- Who reaches a workspace, and what it reaches, by the NetworkPolicies of internal/controller/render.go.
use per_user_container_opera.Common.{
  ◌≡◌, ◌≢◌, refl, ◌↔◌, Bool, true, false, ◌&&◌, ◌||◌, Option, ℤ, eqb_ℤ, none, some, List, [], ◌∷◌,
  ◌++◌, Text, text_eq, text_eq_iff, if◌then◌else◌, any, ◌⊎◌, inl, inr, All, arith,
}
use per_user_container_opera.Api.Workspace.{Workspace, Key}
use per_user_container_opera.Api.Network.{LabelSelector, Peer, PolicyPort, IngressRule, EgressRule}
use per_user_container_opera.Api.App.{PerUserApp}
use per_user_container_opera.Api.Objects.{NetworkPolicy}
use per_user_container_opera.Rendering.Labels.{
  Labels, router_pod_labels, workspace_pod_labels, selects, workspace_pod_labels_select,
  router_pod_labels_select, router_pod_labels-workspace,
}
use per_user_container_opera.Rendering.Policies.{
  dns_egress_rule, resolve_probe_port, workspace_ingress, workspace_egress_policy, traefik,
  render_router_network_policy,
}
use per_user_container_opera.Rendering.Validate.{Warning, validate_app}
use per_user_container_opera.Rendering.Validate.Peers.{IsNarrowRule}
use per_user_container_opera.Rendering.Validate.Laws.{validate_app_iff}

-- Where a connection comes from: a pod by its namespace and labels, with its namespace's labels, and
-- which CIDRs hold its address.
pub record Source : Type 0 where
  pub namespace : Text
  pub namespace_labels : Labels
  pub labels : Labels
  pub within : Text → Bool

-- Whether a peer is that of a source, as Kubernetes reads it: a CIDR, if there is one, is about the
-- address alone; a selector of pods without one of namespaces is about the namespace of the policy;
-- and what is not selected by is not restricted. Selectors are read by their `matchLabels`: no peer of a
-- workspace's policy has another part.
abbrev pub in_namespace : Key → Source → Option LabelSelector → Option LabelSelector → Bool
in_namespace policy src pods (some sel) = selects sel.match_labels src.namespace_labels
in_namespace policy src none none = true
in_namespace policy src (some pods) none = text_eq src.namespace policy.namespace

abbrev pub in_pods : Source → Option LabelSelector → Bool
in_pods src none = true
in_pods src (some sel) = selects sel.match_labels src.labels

abbrev pub is_peer : Key → Source → Peer → Bool
is_peer policy src p = elim p.ip_block [
  | some cidr ↦ src.within cidr
  | none ↦ in_namespace policy src p.pod_selector p.namespace_selector && in_pods src p.pod_selector
]

-- A rule without peers is about every source, and one without ports about every port.
abbrev pub is_from : Key → Source → List Peer → Bool
is_from policy src [] = true
is_from policy src (p ∷ peers) = any (is_peer policy src) (p ∷ peers)

abbrev pub is_on : ℤ → List PolicyPort → Bool
is_on port [] = true
is_on port (p ∷ ports) = any (λ q. eqb_ℤ port q.port) (p ∷ ports)

abbrev pub admits : Key → Source → ℤ → IngressRule → Bool
admits policy src port r = is_from policy src r.from && is_on port r.ports

-- A policy that says nothing of ingress lets every source in.
abbrev pub lets_in : NetworkPolicy → Source → ℤ → Bool
lets_in policy src port = elim policy.ingress [
  | none ↦ true
  | some rules ↦ any (admits policy.key src port) rules
]

-- The sources that a workspace is for: a router of its app, on the port of the app, and a node, on the
-- port of the probe.
abbrev pub IsRouter : PerUserApp → Workspace → Source → ℤ → Type 0
IsRouter app ws src port =
    (src.namespace ≡ ws.key.namespace)
    × (selects (router_pod_labels app.key.name) src.labels ≡ true)
    × (eqb_ℤ port app.spec.workspace.port ≡ true)

abbrev pub IsProbe : PerUserApp → Text → Source → ℤ → Type 0
IsProbe app node_cidr src port =
    (src.within node_cidr ≡ true) × (eqb_ℤ port (resolve_probe_port app) ≡ true)

-- The ingress policy of a workspace is about the pods of that user in that app, and of all sources and
-- ports it lets in those that are a router of that app in that namespace on the app's port, and those
-- of an address of a node on the probe's port, and no other; and the pods with the labels of a router
-- of another app, or of a workspace of whatever app and user, are no routers of that app.
pub workspace_ingress_lem :
    (app : PerUserApp) (ws : Workspace) (cidr b v : Text) (src : Source) (port : ℤ)
    → ((selects (workspace_ingress app ws cidr).pod_selector (workspace_pod_labels b v) ≡ true)
        ↔ ((app.key.name ≡ b) × (ws.spec.user_key ≡ v)))
      × ((lets_in (workspace_ingress app ws cidr) src port ≡ true)
          ↔ (IsRouter app ws src port ⊎ IsProbe app cidr src port))
      × ((selects (router_pod_labels app.key.name) (router_pod_labels b) ≡ true)
          ↔ (app.key.name ≡ b))
      × (selects (router_pod_labels app.key.name) (workspace_pod_labels b v) ≡ false)
unfolding workspace_ingress
workspace_ingress_lem app ws cidr b v src port = (
  workspace_pod_labels_select app.key.name ws.spec.user_key b v,
  by_tests (text_eq src.namespace ws.key.namespace)
      (selects (router_pod_labels app.key.name) src.labels) (eqb_ℤ port app.spec.workspace.port)
      (src.within cidr) (eqb_ℤ port (resolve_probe_port app))
      (text_eq_iff src.namespace ws.key.namespace),
  router_pod_labels_select app.key.name b,
  router_pod_labels-workspace app.key.name b v,
)
  where
    by_tests :
        (n l p w q : Bool) {N : Type 0}
        → (n ≡ true) ↔ N
        → ((((n && l || false) && (p || false)) || (((w || false) && (q || false)) || false))
            ≡ true)
          ↔ ((N × (l ≡ true) × (p ≡ true)) ⊎ ((w ≡ true) × (q ≡ true)))
    by_tests n l p w q f = ground (arith, f)

narrow-or-dns :
    (rules : List EgressRule)
    → All IsNarrowRule rules
    → All (λ r. (r ≡ dns_egress_rule) ⊎ IsNarrowRule r) rules
narrow-or-dns [] h = tt
narrow-or-dns (r ∷ rules) h = (inr h.0, narrow-or-dns rules h.1)

names_peer :
    (l : List Peer) (b : Bool) → (l ≢ []) ⊎ (b ≡ true) → (if b then l ++ (traefik ∷ []) else l) ≢ []
names_peer [] true h q = absurd (cc q)
names_peer (p ∷ l) true h q = absurd (cc q)
names_peer l false (inl n) q = n q
names_peer l false (inr e) q = absurd (cc e)

-- A policy restricts what comes in, and each of its rules has a property; likewise what goes out.
abbrev pub IngressIs : (IngressRule → Type 0) → NetworkPolicy → Type 0
IngressIs P policy = (rules : List IngressRule) × (policy.ingress ≡ some rules) × All P rules

abbrev pub EgressIs : (EgressRule → Type 0) → NetworkPolicy → Type 0
EgressIs P policy = (rules : List EgressRule) × (policy.egress ≡ some rules) × All P rules

abbrev pub NamesSource : IngressRule → Type 0
NamesSource r = r.from ≢ []

abbrev pub NamesTarget : EgressRule → Type 0
NamesTarget r = (r ≡ dns_egress_rule) ⊎ (r.to ≢ [])

abbrev pub IsNarrowOrDns : EgressRule → Type 0
IsNarrowOrDns r = (r ≡ dns_egress_rule) ⊎ IsNarrowRule r

-- No policy that is rendered for an app that ValidateApp lets pass is open by default. The two of a
-- workspace and the one of the router restrict, between them, what comes in and what goes out of both;
-- every ingress rule of either names a peer; every egress rule of a workspace is the one for DNS or
-- names peers that are narrow; and every egress rule of the router is the one for DNS or names a peer.
pub validated-closed :
    (app : PerUserApp) (ws : Workspace) (pod_cidr node_cidr : Text) (warnings : List Warning)
    → validate_app app ≡ inr warnings
    → IngressIs NamesSource (workspace_ingress app ws node_cidr)
      × EgressIs IsNarrowOrDns (workspace_egress_policy app ws)
      × IngressIs NamesSource (render_router_network_policy app pod_cidr node_cidr)
      × EgressIs NamesTarget (render_router_network_policy app pod_cidr node_cidr)
unfolding workspace_ingress workspace_egress_policy render_router_network_policy
validated-closed app ws pod_cidr node_cidr warnings e =
    let v = (validate_app_iff app).0 (warnings, e) in
    (
      (_, refl, ((λ q. absurd (cc q)), ((λ q. absurd (cc q)), tt))),
      (_, refl, (inl refl, narrow-or-dns app.spec.network.workspace_egress v.egress)),
      (
        _,
        refl,
        (
          names_peer app.spec.network.router_ingress.from
              app.spec.network.router_ingress.from_traefik v.ingress,
          ((λ q. absurd (cc q)), tt),
        ),
      ),
      (_, refl, (inl refl, (inr (λ q. absurd (cc q)), (inr (λ q. absurd (cc q)), tt)))),
    )
