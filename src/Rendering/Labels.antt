-- ===== src/Rendering/Labels.antt =====
-- internal/controller/render.go: the labels and names of what is rendered, and the objects that have
-- little more than those.
use per_user_container_opera.Common.{
  ◌≡◌, ◌↔◌, Bool, true, false, none, some, List, [], ◌∷◌, ◌++◌, Text, codes, text_eq, text_eq_iff,
  ℤ, pos, map_get, all, arith,
}
use per_user_container_opera.Api.Workspace.{Workspace, Key, label_app, label_user_key}
use per_user_container_opera.Api.App.{PerUserApp}
use per_user_container_opera.Api.Objects.{Service, ServiceAccount, RoleBinding}
use per_user_container_opera.Reclaimer.Deletion.{claim_key}

abbrev pub label_component : Text
label_component = codes "puc.kettleofketchup/component"

abbrev pub component_router : Text
component_router = codes "router"

abbrev pub component_workspace : Text
component_workspace = codes "workspace"

abbrev pub label_part_of : Text
label_part_of = codes "app.kubernetes.io/part-of"

abbrev pub part_of_value : Text
part_of_value = codes "per-user-container-operator"

abbrev pub router_role_name : Text
router_role_name = codes "per-user-container-operator-router"

abbrev pub router_port : ℤ
router_port = pos 8080

abbrev pub metrics_port : ℤ
metrics_port = pos 9090

abbrev pub Labels : Type 0
Labels = List (Text × Text)

unfoldable pub router_pod_labels : Text → Labels
router_pod_labels app_name =
    (label_app, app_name)
    ∷ (label_component, component_router)
    ∷ (label_part_of, part_of_value)
    ∷ []

unfoldable pub workspace_pod_labels : Text → Text → Labels
workspace_pod_labels app_name user_key =
    (label_app, app_name)
    ∷ (label_user_key, user_key)
    ∷ (label_component, component_workspace)
    ∷ (label_part_of, part_of_value)
    ∷ []

abbrev pub router_name : PerUserApp → Text
router_name app = app.key.name ++ codes "-router"

abbrev pub router_service_account_name : PerUserApp → Text
router_service_account_name app = app.key.name ++ codes "-router"

abbrev pub workspace_service_account_name : PerUserApp → Text
workspace_service_account_name app = app.key.name ++ codes "-workspace"

abbrev pub beside : PerUserApp → Text → Key
beside app name = record { namespace = app.key.namespace; name = name }

unfoldable pub render_workspace_service : PerUserApp → Workspace → Service
unfolding workspace_pod_labels
render_workspace_service app ws = record {
  key = record { namespace = ws.key.namespace; name = (claim_key app ws).name };
  labels = workspace_pod_labels app.key.name ws.spec.user_key;
  selector = workspace_pod_labels app.key.name ws.spec.user_key;
  ports = record { name = codes "http"; port = app.spec.workspace.port } ∷ [];
}

unfoldable pub render_router_service : PerUserApp → Service
unfolding router_pod_labels
render_router_service app = record {
  key = beside app (router_name app);
  labels = router_pod_labels app.key.name;
  selector = router_pod_labels app.key.name;
  ports =
      record { name = codes "http"; port = router_port }
      ∷ record { name = codes "metrics"; port = metrics_port }
      ∷ [];
}

unfoldable pub render_workspace_service_account : PerUserApp → ServiceAccount
render_workspace_service_account app = record {
  key = beside app (workspace_service_account_name app);
  labels = (label_app, app.key.name) ∷ (label_part_of, part_of_value) ∷ [];
}

unfoldable pub render_router_service_account : PerUserApp → ServiceAccount
unfolding router_pod_labels
render_router_service_account app = record {
  key = beside app (router_service_account_name app);
  labels = router_pod_labels app.key.name;
}

unfoldable pub render_router_role_binding : PerUserApp → RoleBinding
unfolding router_pod_labels
render_router_role_binding app = record {
  key = beside app (router_name app);
  labels = router_pod_labels app.key.name;
  subject = beside app (router_service_account_name app);
  role = router_role_name;
}

-- Whether the labels of a selector (`matchLabels`) are all among those of a pod.
abbrev pub has_label : Labels → Text × Text → Bool
has_label labels (k, v) = elim (map_get k labels) [ none ↦ false | some u ↦ text_eq u v ]

abbrev pub selects : Labels → Labels → Bool
selects selector labels = all (has_label labels) selector

-- The labels of a user's workspace select the pods of that user in that app, and no other workspace's.
pub workspace_pod_labels_select :
    (a u b v : Text)
    → (selects (workspace_pod_labels a u) (workspace_pod_labels b v) ≡ true) ↔ ((a ≡ b) × (u ≡ v))
unfolding workspace_pod_labels map_get text_eq
workspace_pod_labels_select a u b v = ground (arith, text_eq_iff b a, text_eq_iff v u)

-- The labels of an app's router select its routers, and no other app's.
pub router_pod_labels_select :
    (a b : Text) → (selects (router_pod_labels a) (router_pod_labels b) ≡ true) ↔ (a ≡ b)
unfolding router_pod_labels map_get text_eq
router_pod_labels_select a b = ground (arith, text_eq_iff b a)

-- No workspace's pod is taken for a router.
pub router_pod_labels-workspace :
    (a b v : Text) → selects (router_pod_labels a) (workspace_pod_labels b v) ≡ false
unfolding router_pod_labels workspace_pod_labels map_get text_eq
router_pod_labels-workspace a b v = ground (arith, text_eq_iff b a)
