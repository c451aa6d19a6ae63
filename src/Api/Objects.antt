-- ===== src/Api/Objects.antt =====
-- The fields of Kubernetes objects that the controllers use.
use per_user_container_opera.Common.{Bool, Option, List, [], none, Text, Time, ℤ, false}
use per_user_container_opera.Api.Network.{IngressRule, EgressRule}
use per_user_container_opera.Api.Workspace.{Key, Quantity, ConditionStatus}

pub record Claim : Type 0 where
  pub key : Key
  pub labels : List (Text × Text)
  pub annotations : List (Text × Text)
  pub deletion_timestamp : Option Time
  pub volume_name : Text
  pub storage_class_name : Option Text
  pub access_modes : List Text
  pub request : Option Quantity
  pub bound : Bool
  pub capacity : Option Quantity

-- The zero value of a PersistentVolumeClaim.
abbrev pub zero_claim : Claim
zero_claim = record {
  key = record { namespace = []; name = [] };
  labels = [];
  annotations = [];
  deletion_timestamp = none;
  volume_name = [];
  storage_class_name = none;
  access_modes = [];
  request = none;
  bound = false;
  capacity = none;
}

pub data ReclaimPolicy : Type 0 where
  retain delete recycle : ReclaimPolicy

pub record Volume : Type 0 where
  pub name : Text
  pub reclaim_policy : ReclaimPolicy

-- A Deployment: its replicas, its immutable selector, and the rest of its spec as one value.
pub record Deployment : Type 0 where
  pub key : Key
  pub annotations : List (Text × Text)
  pub replicas : Option ℤ
  pub selector : List (Text × Text)
  pub template : Text
  pub ready_replicas : ℤ

pub record ServicePort : Type 0 where
  pub name : Text
  pub port : ℤ

-- A ClusterIP Service.
pub record Service : Type 0 where
  pub key : Key
  pub labels : List (Text × Text)
  pub selector : List (Text × Text)
  pub ports : List ServicePort

-- A NetworkPolicy: the pods that it is for, and its rules; a direction that is not among its types
-- has none.
pub record NetworkPolicy : Type 0 where
  pub key : Key
  pub pod_selector : List (Text × Text)
  pub ingress : Option (List IngressRule)
  pub egress : Option (List EgressRule)

-- A ServiceAccount, and a RoleBinding of one ServiceAccount to a Role.
pub record ServiceAccount : Type 0 where
  pub key : Key
  pub labels : List (Text × Text)

pub record RoleBinding : Type 0 where
  pub key : Key
  pub labels : List (Text × Text)
  pub subject : Key
  pub role : Text

-- What an app's reconcile creates or updates.
pub data RouterObject : Type 0 where
  workspace_account : ServiceAccount → RouterObject
  router_account : ServiceAccount → RouterObject
  router_binding : RoleBinding → RouterObject
  router_deployment : Deployment → RouterObject
  router_service : Service → RouterObject
  router_policy : NetworkPolicy → RouterObject

-- An endpoint of an EndpointSlice: its addresses, and its Ready condition.
pub record Endpoint : Type 0 where
  pub addresses : List Text
  pub ready : Option Bool

-- A Pod: whether its phase is Pending, the waiting reason of each container status that has one,
-- and the status of each condition.
pub record Pod : Type 0 where
  pub name : Text
  pub is_pending : Bool
  pub waiting : List (Option Text)
  pub conditions : List ConditionStatus
