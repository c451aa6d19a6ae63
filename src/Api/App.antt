-- ===== src/Api/App.antt =====
-- api/v1alpha1/peruserapp_types.go: the parts of a PerUserApp that the modelled code reads.
use per_user_container_opera.Common.{Bool, Option, List, Text, ℤ, Duration}
use per_user_container_opera.Api.Network.{EgressRule, Peer}
use per_user_container_opera.Api.Workspace.{Key, Condition, Quantity}

pub record LimitsSpec : Type 0 where
  pub max_workspaces : ℤ
  pub max_concurrent_starts : ℤ

pub record LifecycleSpec : Type 0 where
  pub idle_timeout : Duration
  pub startup_timeout : Duration
  pub backoff_max : Duration
  pub reap_interval : Duration
  pub connection_heartbeat_interval : Duration

pub record ReclaimSpec : Type 0 where
  pub enabled : Bool
  pub target_workspaces : ℤ
  pub min_idle_age : Duration
  pub interval : Duration
  pub delete_volume_data : Bool

pub record SeedSpec : Type 0 where
  pub staging_mount_path : Text
  pub from : Text

pub record StorageSpec : Type 0 where
  pub size : Quantity
  pub storage_class_name : Text
  pub mount_path : Text
  pub seed : Option SeedSpec

-- A credential in a Secret, by the Secret's name and key, and the header that carries it.
pub record SecretHeaderRef : Type 0 where
  pub secret_name : Text
  pub secret_key : Text
  pub header : Text
  pub scheme : Text

pub record IdentitySpec : Type 0 where
  pub header : Text
  pub max_length : ℤ

-- A source of a projected volume: a ServiceAccount token, or another.
pub data ProjectedSource : Type 0 where
  service_account_token other_projection : ProjectedSource

-- A field of `corev1.VolumeSource` that is set. `volatile` is an emptyDir, with whether its medium is
-- memory and its size limit.
pub data VolumeField : Type 0 where
  config_map : VolumeField
  secret : VolumeField
  volatile : Bool → Option Quantity → VolumeField
  projected : List ProjectedSource → VolumeField
  other_field : VolumeField

-- A volume of a pod, with the fields of its source that are set, in their order.
pub record PodVolume : Type 0 where
  pub name : Text
  pub fields : List VolumeField

-- The port of an HTTP probe (`intstr.IntOrString`).
pub data ProbePort : Type 0 where
  number : ℤ → ProbePort
  port_name : Text → ProbePort

-- A readiness probe, with the port of its HTTPGet if it has one.
pub record Probe : Type 0 where
  pub http_get : Option ProbePort

pub record WorkspaceTemplateSpec : Type 0 where
  pub port : ℤ
  pub upstream_auth : Option SecretHeaderRef
  pub fs_group : Option ℤ
  pub run_as_non_root : Option Bool
  pub run_as_user : Option ℤ
  pub service_account_name : Text
  pub automount_token : Option Bool
  pub volumes : List PodVolume
  pub volume_mounts : List Text
  pub readiness_probe : Option Probe

pub record RouterIngressSpec : Type 0 where
  pub from_traefik : Bool
  pub from : List Peer

pub record NetworkSpec : Type 0 where
  pub workspace_egress : List EgressRule
  pub router_ingress : RouterIngressSpec

pub record RouterSpec : Type 0 where
  pub replicas : ℤ
  pub image : Text
  pub cold_start_hold_seconds : ℤ
  pub shared_paths : List Text

pub record PerUserAppSpec : Type 0 where
  pub identity : IdentitySpec
  pub caller_auth : SecretHeaderRef
  pub workspace : WorkspaceTemplateSpec
  pub network : NetworkSpec
  pub storage : StorageSpec
  pub limits : LimitsSpec
  pub lifecycle : LifecycleSpec
  pub router : RouterSpec
  pub reclaim : Option ReclaimSpec

pub record PerUserApp : Type 0 where
  pub key : Key
  pub generation : ℤ
  pub spec : PerUserAppSpec
  pub conditions : List Condition
