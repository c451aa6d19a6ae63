-- ===== src/Rendering/Validate.antt =====
-- internal/controller/render.go, ValidateApp.
pub mod Peers
pub mod Laws
use per_user_container_opera.Common.{
  ℕ, suc, Bool, true, false, not, ◌&&◌, ◌||◌, Option, none, some, List, [], ◌∷◌, ◌++◌, Text, codes,
  text_eq, ◌==◌, if◌then◌else◌, any, all, is_some, ◌⊎◌, inl, inr, length,
}
use per_user_container_opera.Api.Network.{LabelSelector, Peer, EgressRule}
use per_user_container_opera.Api.App.{
  PerUserApp, NetworkSpec, PodVolume, VolumeField, config_map, secret, volatile, projected,
  other_field, ProjectedSource, service_account_token, other_projection, WorkspaceTemplateSpec,
}

-- The errors, by the field that they are about and its place.
pub data ConfigError : Type 0 where
  reserved_volume_name : ConfigError
  source_not_allowed : Text → ConfigError
  token_forbidden : Text → ConfigError
  operator_service_account : ConfigError
  automount_rejected : ConfigError
  fs_group_required : ConfigError
  run_as_user_required : ConfigError
  egress_without_peers : ℕ → ConfigError
  empty_peer : ℕ → ℕ → ConfigError
  own_namespace : ℕ → ℕ → ConfigError
  every_namespace : ℕ → ℕ → ConfigError
  every_address : ℕ → ℕ → ConfigError
  open_ingress : ConfigError
  caller_auth_mandatory : ConfigError

pub data Warning : Type 0 where
  dns_only : Warning
  nested_mount : Text → Warning

abbrev pub pvc_volume_name : Text
pvc_volume_name = codes "puc-workspace"

abbrev pub operator_service_account_name : Text
operator_service_account_name = codes "per-user-container-operator"

abbrev pub is_allowed_field : VolumeField → Bool
is_allowed_field config_map = true
is_allowed_field secret = true
is_allowed_field (volatile memory limit) = true
is_allowed_field (projected sources) = true
is_allowed_field other_field = false

-- `count == 1 && allowed[set]`.
unfoldable pub allowed_volume_source : List VolumeField → Bool
allowed_volume_source [] = false
allowed_volume_source (f ∷ []) = is_allowed_field f
allowed_volume_source (f ∷ g ∷ more) = false

abbrev pub is_token : ProjectedSource → Bool
is_token service_account_token = true
is_token other_projection = false

abbrev pub projects_token : VolumeField → Bool
projects_token (projected sources) = any is_token sources
projects_token config_map = false
projects_token secret = false
projects_token (volatile memory limit) = false
projects_token other_field = false

unfoldable pub volume_error : PodVolume → Option ConfigError
unfolding allowed_volume_source
volume_error v =
    if text_eq v.name pvc_volume_name
    then some reserved_volume_name
    else if not (allowed_volume_source v.fields)
    then some (source_not_allowed v.name)
    else if any projects_token v.fields
    then some (token_forbidden v.name)
    else none

abbrev pub or_else : Option ConfigError → Option ConfigError → Option ConfigError
or_else none next = next
or_else (some e) next = some e

unfoldable pub volumes_error : List PodVolume → Option ConfigError
volumes_error [] = none
volumes_error (v ∷ more) = or_else (volume_error v) (volumes_error more)

abbrev pub is_true : Option Bool → Bool
is_true none = false
is_true (some b) = b

-- The checks of the pod's identity and security context.
unfoldable pub pod_error : WorkspaceTemplateSpec → Option ConfigError
pod_error wt =
    if text_eq wt.service_account_name operator_service_account_name
    then some operator_service_account
    else if is_true wt.automount_token
    then some automount_rejected
    else if not (is_some wt.fs_group)
    then some fs_group_required
    else if is_true wt.run_as_non_root && not (is_some wt.run_as_user)
    then some run_as_user_required
    else none

abbrev pub is_nil {ℓ} : {A : Type ℓ} → List A → Bool
is_nil [] = true
is_nil (a ∷ l) = false

unfoldable pub is_empty_label_selector : LabelSelector → Bool
is_empty_label_selector sel = is_nil sel.match_labels && is_nil sel.match_expressions

-- Whether a selector is set and empty, and whether it is absent or empty.
abbrev pub selects_all : Option LabelSelector → Bool
selects_all none = false
selects_all (some sel) = is_empty_label_selector sel

abbrev pub limits_nothing : Option LabelSelector → Bool
limits_nothing none = true
limits_nothing (some sel) = is_empty_label_selector sel

abbrev pub is_every_address : Option Text → Bool
is_every_address none = false
is_every_address (some cidr) = text_eq cidr (codes "0.0.0.0/0") || text_eq cidr (codes "::/0")

unfoldable pub peer_error : ℕ → ℕ → Peer → Option ConfigError
unfolding is_empty_label_selector
peer_error i j p =
    if not (is_some p.ip_block)
      && not (is_some p.pod_selector)
      && not (is_some p.namespace_selector)
    then some (empty_peer i j)
    else if selects_all p.pod_selector && not (is_some p.namespace_selector)
    then some (own_namespace i j)
    else if selects_all p.namespace_selector && limits_nothing p.pod_selector
    then some (every_namespace i j)
    else if is_every_address p.ip_block
    then some (every_address i j)
    else none

unfoldable pub peers_error : ℕ → ℕ → List Peer → Option ConfigError
peers_error i j [] = none
peers_error i j (p ∷ more) = or_else (peer_error i j p) (peers_error i (suc j) more)

abbrev pub rule_error : ℕ → List Peer → Option ConfigError
rule_error i [] = some (egress_without_peers i)
rule_error i (p ∷ more) = peers_error i 0 (p ∷ more)

unfoldable pub egress_error : ℕ → List EgressRule → Option ConfigError
unfolding peers_error
egress_error i [] = none
egress_error i (r ∷ more) = or_else (rule_error i r.to) (egress_error (suc i) more)

abbrev pub ingress_error : NetworkSpec → Option ConfigError
ingress_error network =
    if is_nil network.router_ingress.from && not network.router_ingress.from_traefik
    then some open_ingress
    else none

abbrev pub caller_auth_error : PerUserApp → Option ConfigError
caller_auth_error app =
    if is_nil app.spec.caller_auth.header || is_nil app.spec.caller_auth.secret_name
    then some caller_auth_mandatory
    else none

unfoldable pub has_prefix : Text → Text → Bool
has_prefix [] s = true
has_prefix (a ∷ p) [] = false
has_prefix (a ∷ p) (b ∷ s) = if a == b then has_prefix p s else false

unfoldable pub mount_warnings : Text → List Text → List Warning
unfolding has_prefix
mount_warnings mount [] = []
mount_warnings mount (m ∷ more) =
    if has_prefix (mount ++ codes "/") m
    then nested_mount m ∷ mount_warnings mount more
    else mount_warnings mount more

abbrev pub egress_warnings : List EgressRule → List Warning
egress_warnings rules = if is_nil rules then dns_only ∷ [] else []

abbrev pub storage_warnings : PerUserApp → List Warning
storage_warnings app =
    if is_nil app.spec.storage.mount_path
    then []
    else mount_warnings app.spec.storage.mount_path app.spec.workspace.volume_mounts

abbrev pub warned : PerUserApp → Option ConfigError → ConfigError ⊎ List Warning
warned app none = inr (egress_warnings app.spec.network.workspace_egress ++ storage_warnings app)
warned app (some e) = inl e

-- The first error in the order of the checks.
unfoldable pub first_config_error : PerUserApp → Option ConfigError
unfolding volumes_error pod_error egress_error
first_config_error app = or_else (volumes_error app.spec.workspace.volumes) (
    or_else (pod_error app.spec.workspace) (
      or_else (egress_error 0 app.spec.network.workspace_egress)
        (or_else (ingress_error app.spec.network) (caller_auth_error app))))

-- That error, or the warnings.
unfoldable pub validate_app : PerUserApp → ConfigError ⊎ List Warning
unfolding first_config_error mount_warnings
validate_app app = warned app (first_config_error app)
