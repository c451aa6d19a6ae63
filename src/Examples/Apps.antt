-- ===== src/Examples/Apps.antt =====
-- The theorems on the reconcile of an app at concrete inputs.
use per_user_container_opera.Common.{false, none, some, [], ◌∷◌, codes, pos, All, ok}
use per_user_container_opera.Api.Workspace.{Condition, condition_true}
use per_user_container_opera.Api.App.{PerUserApp}
use per_user_container_opera.Cluster.{Client, requests}
use per_user_container_opera.Reconciler.Storage.{Library}
use per_user_container_opera.Apps.{Setup, reconcile_per_user_app}
use per_user_container_opera.Apps.Ensured.{IsAppWrite}
use per_user_container_opera.Apps.Writes.{reconcile_per_user_app-IsAppWrite}
use per_user_container_opera.Examples.Data.{app, steady}

abbrev valid : Condition
valid = record {
  type = codes "ConfigValid";
  status = condition_true;
  reason = codes "Valid";
  message = codes "spec passed validation";
  observed_generation = pos 1;
}

abbrev ide : PerUserApp
ide = record (app none) { conditions = valid ∷ [] }

-- The conditions of an app are the one that it has.
abbrev library : Library
library = record {
  set_status_condition = λ l cond. cond ∷ [];
  remove_status_condition = λ l type. [];
  find_status_condition = λ l type. some valid;
  same_status = λ a b. false;
  quantity_text = λ q. [];
  decimal = λ n. [];
}

abbrev setup : Setup
setup = record {
  router_image = codes "router:1";
  pod_cidr = codes "10.1.0.0/16";
  node_cidr = codes "10.0.0.0/24";
  deployment = λ a image. record {
    key = a.key;
    annotations = [];
    replicas = none;
    selector = [];
    template = image;
    ready_replicas = pos 0;
  };
  error_text = λ e. codes "invalid";
  warning_text = λ m. codes "warning";
}

abbrev server : Client
server = record (steady [] [] []) { get_app = λ k s. (ok ide, s) }

-- A server that does not tell about the StorageClass.
reconcile_per_user_app-IsAppWrite_example :
    All
      (λ q. IsAppWrite server library setup q)
      (requests
        (reconcile_per_user_app server library setup ide.key
          (record { server = tt; log = [] })).1.log)
reconcile_per_user_app-IsAppWrite_example =
    reconcile_per_user_app-IsAppWrite server library setup ide.key tt
