-- ===== src/Rendering/Policies.antt =====
-- internal/controller/render.go: the NetworkPolicies of a workspace and of a router.
pub mod Isolation
use per_user_container_opera.Common.{
  Bool, true, false, Option, none, some, List, [], ◌∷◌, ◌++◌, Text, codes, text_eq, ℤ, pos, ltb_ℤ,
  if◌then◌else◌,
}
use per_user_container_opera.Api.Workspace.{Workspace, Key}
use per_user_container_opera.Api.Network.{LabelSelector, Peer, PolicyPort, IngressRule, EgressRule}
use per_user_container_opera.Api.App.{PerUserApp, Probe, ProbePort, number, port_name}
use per_user_container_opera.Api.Objects.{NetworkPolicy}
use per_user_container_opera.Reclaimer.Deletion.{claim_key}
use per_user_container_opera.Rendering.Labels.{
  router_pod_labels, workspace_pod_labels, router_name, beside, router_port, metrics_port,
}

abbrev pub workspace_port_name : Text
workspace_port_name = codes "http"

abbrev pub probe_port : ProbePort → ℤ → ℤ
probe_port (number n) port = if ltb_ℤ (pos 0) n then n else port
probe_port (port_name name) port = if text_eq name workspace_port_name then port else port

abbrev pub http_get_port : Option ProbePort → ℤ → ℤ
http_get_port none port = port
http_get_port (some p) port = probe_port p port

abbrev pub readiness_port : Option Probe → ℤ → ℤ
readiness_port none port = port
readiness_port (some probe) port = http_get_port probe.http_get port

unfoldable pub resolve_probe_port : PerUserApp → ℤ
resolve_probe_port app = readiness_port app.spec.workspace.readiness_probe app.spec.workspace.port

abbrev pub by_labels : List (Text × Text) → Peer
by_labels labels = record {
  ip_block = none;
  pod_selector = some (record { match_labels = labels; match_expressions = [] });
  namespace_selector = none;
}

abbrev pub by_cidr : Text → Peer
by_cidr cidr = record { ip_block = some cidr; pod_selector = none; namespace_selector = none }

abbrev pub any_protocol : ℤ → List PolicyPort
any_protocol port = record { protocol = none; port = port } ∷ []

abbrev pub dns_egress_rule : EgressRule
dns_egress_rule = record {
  to = [];
  ports =
      record { protocol = some (codes "UDP"); port = pos 53 }
      ∷ record { protocol = some (codes "TCP"); port = pos 53 }
      ∷ [];
}

abbrev pub suffixed : Key → Text → Key
suffixed key suffix = record { namespace = key.namespace; name = key.name ++ suffix }

unfoldable pub workspace_ingress : PerUserApp → Workspace → Text → NetworkPolicy
unfolding resolve_probe_port workspace_pod_labels router_pod_labels
workspace_ingress app ws node_cidr = record {
  key = suffixed (claim_key app ws) (codes "-ingress");
  pod_selector = workspace_pod_labels app.key.name ws.spec.user_key;
  ingress = some (
      record {
        from = by_labels (router_pod_labels app.key.name) ∷ [];
        ports = any_protocol app.spec.workspace.port;
      }
      ∷ record { from = by_cidr node_cidr ∷ []; ports = any_protocol (resolve_probe_port app) }
      ∷ []);
  egress = none;
}

unfoldable pub workspace_egress_policy : PerUserApp → Workspace → NetworkPolicy
unfolding workspace_pod_labels
workspace_egress_policy app ws = record {
  key = suffixed (claim_key app ws) (codes "-egress");
  pod_selector = workspace_pod_labels app.key.name ws.spec.user_key;
  ingress = none;
  egress = some (dns_egress_rule ∷ app.spec.network.workspace_egress);
}

unfoldable pub render_workspace_network_policies :
    PerUserApp → Workspace → Text → Text → List NetworkPolicy
unfolding workspace_ingress workspace_egress_policy
render_workspace_network_policies app ws pod_cidr node_cidr =
    workspace_ingress app ws node_cidr ∷ workspace_egress_policy app ws ∷ []

abbrev pub traefik : Peer
traefik = record {
  ip_block = none;
  pod_selector = none;
  namespace_selector = some (record {
    match_labels = (codes "kubernetes.io/metadata.name", codes "traefik") ∷ [];
    match_expressions = [];
  });
}

-- The peers that reach a router.
abbrev pub router_from : PerUserApp → List Peer
router_from app =
    if app.spec.network.router_ingress.from_traefik
    then app.spec.network.router_ingress.from ++ (traefik ∷ [])
    else app.spec.network.router_ingress.from

unfoldable pub render_router_network_policy : PerUserApp → Text → Text → NetworkPolicy
unfolding router_pod_labels
render_router_network_policy app pod_cidr node_cidr = record {
  key = beside app (router_name app);
  pod_selector = router_pod_labels app.key.name;
  ingress = some (
      record { from = router_from app; ports = any_protocol router_port }
      ∷ record { from = by_cidr pod_cidr ∷ []; ports = any_protocol metrics_port }
      ∷ []);
  egress = some (
      dns_egress_rule
      ∷ record { to = by_cidr node_cidr ∷ []; ports = [] }
      ∷ record { to = by_cidr pod_cidr ∷ []; ports = [] }
      ∷ []);
}
