-- ===== src/Api/Workspace.antt =====
-- api/v1alpha1/constants.go and workspace_types.go.
use per_user_container_opera.Common.{
  ◌≡◌, ◌↔◌, arith, text_eq_iff, Bool, true, false, Option, List, Text, codes, text_eq, ℤ, Time,
  if◌then◌else◌,
}

-- `unset` is the empty string of a Workspace that no reconcile has seen.
pub data Phase : Type 0 where
  unset pending starting ready idle failed : Phase

pub Phase-discrete : Discrete Phase
Phase-discrete = hlevel

abbrev pub phase_eq : Phase → Phase → Bool
phase_eq unset unset = true
phase_eq pending pending = true
phase_eq starting starting = true
phase_eq ready ready = true
phase_eq idle idle = true
phase_eq failed failed = true
phase_eq _ _ = false

pub phase_eq_eq : (a b : Phase) → phase_eq a b ≡ true → a ≡ b
phase_eq_eq a b e = ground (arith, e)

abbrev pub ann_user_display : Text
ann_user_display = codes "puc.kettleofketchup/user-display"

abbrev pub ann_reclaiming : Text
ann_reclaiming = codes "puc.kettleofketchup/reclaiming"

abbrev pub label_app : Text
label_app = codes "puc.kettleofketchup/app"

abbrev pub label_user_key : Text
label_user_key = codes "puc.kettleofketchup/user-key"

abbrev pub cond_migration_complete : Text
cond_migration_complete = codes "MigrationComplete"

abbrev pub cond_storage_spec_drift : Text
cond_storage_spec_drift = codes "StorageSpecDrift"

abbrev pub cond_storage_shrink_rejected : Text
cond_storage_shrink_rejected = codes "StorageShrinkRejected"

abbrev pub cond_ambiguous_volume : Text
cond_ambiguous_volume = codes "AmbiguousVolume"

abbrev pub ann_spec_hash : Text
ann_spec_hash = codes "puc.kettleofketchup/spec-hash"

abbrev pub waiting_rwop_conflict : Text
waiting_rwop_conflict = codes "RWOPConflict"

-- The reasons of puc_workspace_start_failures_total and of puc_workspace_reaped_total.
pub data StartFailure : Type 0 where
  start_orphaned startup_timeout crashloop : StartFailure

pub data ReapReason : Type 0 where
  reap_idle reap_lru : ReapReason

-- `types.NamespacedName`.
pub record Key : Type 0 where
  pub namespace : Text
  pub name : Text

unfoldable pub key_eq : Key → Key → Bool
key_eq a b = if text_eq a.namespace b.namespace then text_eq a.name b.name else false

pub key_eq_iff : (a b : Key) → (key_eq a b ≡ true) ↔ (a ≡ b)
unfolding key_eq
key_eq_iff a b = ground (arith, text_eq_iff a.namespace b.namespace, text_eq_iff a.name b.name)

pub data ConditionStatus : Type 0 where
  condition_true condition_false condition_unknown : ConditionStatus

-- The fields of `metav1.Condition` but its transition time.
pub record Condition : Type 0 where
  pub type : Text
  pub status : ConditionStatus
  pub reason : Text
  pub message : Text
  pub observed_generation : ℤ

pub record ConnectionEntry : Type 0 where
  pub count : ℤ
  pub heartbeat_at : Time

-- A `resource.Quantity` is the number that it stands for, in its smallest unit.
abbrev pub Quantity : Type 0
Quantity = ℤ

pub record WorkspaceStatus : Type 0 where
  pub phase : Phase
  pub scaled_down : Bool
  pub last_activity : Option Time
  pub connections : List (Text × ConnectionEntry)
  pub wake_requested_at : Option Time
  pub enqueued_at : Option Time
  pub consecutive_failures : ℤ
  pub backoff_until : Option Time
  pub start_deadline : Option Time
  pub waiting_reason : Text
  pub largest_observed_size : Option Quantity
  pub conditions : List Condition
  pub pod_ref : Text
  pub service_ref : Text
  pub pvc_ref : Text

pub record WorkspaceSpec : Type 0 where
  pub app_ref : Text
  pub user_key : Text

pub record Workspace : Type 0 where
  pub key : Key
  pub resource_version : Text
  pub generation : ℤ
  pub labels : List (Text × Text)
  pub annotations : List (Text × Text)
  pub finalizers : List Text
  pub creation_timestamp : Time
  pub deletion_timestamp : Option Time
  pub spec : WorkspaceSpec
  pub status : WorkspaceStatus
