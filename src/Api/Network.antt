-- ===== src/Api/Network.antt =====
-- The parts of Kubernetes's `networking/v1` that the operator renders and validates.
use per_user_container_opera.Common.{Option, List, Text, ℤ}

pub record LabelSelector : Type 0 where
  pub match_labels : List (Text × Text)
  pub match_expressions : List Text

-- `NetworkPolicyPeer`: the CIDR of its ipBlock, and its two selectors.
pub record Peer : Type 0 where
  pub ip_block : Option Text
  pub pod_selector : Option LabelSelector
  pub namespace_selector : Option LabelSelector

-- A port, with its protocol if the rule names one.
pub record PolicyPort : Type 0 where
  pub protocol : Option Text
  pub port : ℤ

pub record IngressRule : Type 0 where
  pub from : List Peer
  pub ports : List PolicyPort

pub record EgressRule : Type 0 where
  pub to : List Peer
  pub ports : List PolicyPort
