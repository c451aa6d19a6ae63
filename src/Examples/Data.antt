-- ===== src/Examples/Data.antt =====
-- A workspace, an app, a claim and a client that answers always the same.
use per_user_container_opera.Common.{
  ℕ, true, false, Option, none, some, List, [], ◌∷◌, Text, codes, Time, pos, second, ok, err,
  not_found, ◌*◌,
}
use per_user_container_opera.Api.Workspace.{Workspace, WorkspaceStatus, Phase, ann_reclaiming}
use per_user_container_opera.Api.App.{PerUserApp, ReclaimSpec}
use per_user_container_opera.Api.Objects.{Claim, zero_claim, retain}
use per_user_container_opera.Cluster.{Client}

abbrev pub at : ℕ → Time
at n = pos (n * second)

abbrev pub status : Phase → WorkspaceStatus
status phase = record {
  phase = phase;
  scaled_down = false;
  last_activity = some (at 100);
  connections = [];
  wake_requested_at = none;
  enqueued_at = some (at 90);
  consecutive_failures = pos 0;
  backoff_until = none;
  start_deadline = none;
  waiting_reason = [];
  largest_observed_size = none;
  conditions = [];
  pod_ref = [];
  service_ref = [];
  pvc_ref = [];
}

abbrev pub workspace : Text → Phase → Workspace
workspace user phase = record {
  key = record { namespace = codes "dev"; name = codes "ide-" };
  resource_version = codes "7";
  generation = pos 1;
  labels = [];
  annotations = [];
  finalizers = [];
  creation_timestamp = at 80;
  deletion_timestamp = none;
  spec = record { app_ref = codes "ide"; user_key = user };
  status = status phase;
}

-- A minute of idle time, reclaiming down to no workspace.
abbrev pub reclaiming : ReclaimSpec
reclaiming = record {
  enabled = true;
  target_workspaces = pos 0;
  min_idle_age = at 60;
  interval = at 3600;
  delete_volume_data = true;
}

abbrev pub app : Option ReclaimSpec → PerUserApp
app reclaim = record {
  key = record { namespace = codes "dev"; name = codes "ide" };
  generation = pos 1;
  spec = record {
    storage = record {
      size = pos 10;
      storage_class_name = codes "keep";
      mount_path = codes "/home";
      seed = none;
    };
    identity = record { header = codes "X-User"; max_length = pos 64 };
    caller_auth = record {
      secret_name = codes "auth";
      secret_key = codes "key";
      header = codes "Authorization";
      scheme = codes "Bearer";
    };
    workspace = record {
      port = pos 3000;
      upstream_auth = none;
      fs_group = some (pos 1000);
      run_as_non_root = none;
      run_as_user = none;
      service_account_name = [];
      automount_token = none;
      volumes = [];
      volume_mounts = [];
      readiness_probe = none;
    };
    network = record {
      workspace_egress = [];
      router_ingress = record { from_traefik = true; from = [] };
    };
    router = record {
      replicas = pos 2;
      image = codes "router:1";
      cold_start_hold_seconds = pos 30;
      shared_paths = codes "/icon" ∷ [];
    };
    limits = record { max_workspaces = pos 10; max_concurrent_starts = pos 2 };
    lifecycle = record {
      idle_timeout = at 60;
      startup_timeout = at 120;
      backoff_max = at 300;
      reap_interval = at 30;
      connection_heartbeat_interval = at 15;
    };
    reclaim = reclaim;
  };
  conditions = [];
}

-- A claim that was deleted half and left.
abbrev pub orphan : Claim
orphan = record zero_claim {
  key = record { namespace = codes "dev"; name = codes "ide-u-1" };
  annotations = (ann_reclaiming, codes "now") ∷ [];
}

-- A server with these objects that accepts every write and changes nothing.
abbrev pub steady : List PerUserApp → List Workspace → List Claim → Client
steady apps workspaces claims = record {
  Server = Unit {0};
  list_apps = λ s. (ok apps, s);
  get_workspace = λ k s. (err not_found, s);
  get_app = λ k s. (err not_found, s);
  list_workspaces = λ ns name s. (ok workspaces, s);
  list_all_workspaces = λ s. (ok workspaces, s);
  get_claim = λ k s. (ok orphan, s);
  list_claims = λ ns name s. (ok claims, s);
  list_user_claims = λ ns name user s. (ok claims, s);
  list_pods = λ ns name user s. (ok [], s);
  get_volume = λ k s. (ok (record { name = k; reclaim_policy = retain }), s);
  get_storage_class = λ k s. (ok (some retain), s);
  get_deployment = λ k s. (err not_found, s);
  write = λ q s. (ok tt, s);
  get_cluster_ip = λ k s. (ok (codes "10.0.0.7"), s);
  list_endpoint_slices = λ k s. (ok [], s);
  create_user_workspace = λ ws s. (ok ws, s);
  create_storage = λ claim s. (ok claim, s);
  patch_storage = λ base claim s. (ok claim, s);
  patch_status = λ base ws s. (ok ws, s);
}
