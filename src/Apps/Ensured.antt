-- ===== src/Apps/Ensured.antt =====
-- What an app that passed every check is given (internal/controller/peruserapp_controller.go).
use per_user_container_opera.Common.{
  ◌≡◌, ◌≢◌, Bool, true, false, some, List, [], ◌∷◌, if_cases, leb_ℤ, wrap32, pos, length, ok, inr,
}
use per_user_container_opera.Api.Workspace.{Condition}
use per_user_container_opera.Api.App.{PerUserApp}
use per_user_container_opera.Api.Objects.{
  retain, RouterObject, workspace_account, router_account, router_binding, router_deployment,
  router_service, router_policy,
}
use per_user_container_opera.Cluster.{
  Client, M, ◌>>=◌, ◌>>◌, pure, read, send, config_warning, Request, create_or_update,
  patch_app_status,
}
use per_user_container_opera.Cluster.Keeps.{Keeps, Keeps-bind, Keeps-send}
use per_user_container_opera.Reconciler.Storage.{Library}
use per_user_container_opera.Rendering.Labels.{
  render_workspace_service_account, render_router_service_account, render_router_role_binding,
  render_router_service,
}
use per_user_container_opera.Rendering.Policies.{render_router_network_policy}
use per_user_container_opera.Rendering.Validate.{Warning, validate_app}
use per_user_container_opera.Apps.{
  Setup, equal_conditions, set_app_condition, resolve_image, limit_condition, valid_condition,
  ensure, ensure_workspace_identity, ensure_router_identity, ensure_router_workload,
  workspace_limit_reached, patch_app_status_if_changed, warn, report_limit, ensure_app,
}

-- The objects of an app's router, as they are rendered.
pub data IsRendered (setup : Setup) (app : PerUserApp) : RouterObject → Type 0 where
  workspace_sa : IsRendered setup app (workspace_account (render_workspace_service_account app))
  router_sa : IsRendered setup app (router_account (render_router_service_account app))
  binding : IsRendered setup app (router_binding (render_router_role_binding app))
  deployment :
      IsRendered setup app (router_deployment (setup.deployment app (resolve_image setup app)))
  service : IsRendered setup app (router_service (render_router_service app))
  policy :
      IsRendered setup app
        (router_policy (render_router_network_policy app setup.pod_cidr setup.node_cidr))

module _ (c : Client) (lib : Library) (setup : Setup) where
  -- An app that passed every check: ValidateApp, a StorageClass that was read and retains volumes,
  -- and an image.
  pub record IsServed (app : PerUserApp) : Type 0 where
    pub warnings : List Warning
    pub valid : validate_app app ≡ inr warnings
    pub before : c.Server
    pub after : c.Server
    pub retained :
        c.get_storage_class app.spec.storage.storage_class_name before ≡ (ok (some retain), after)
    pub image : resolve_image setup app ≢ []

  -- The writes of an app's reconcile: the objects of its router, once the app has passed every check;
  -- and its status, whose conditions alone differ from what was read, when they do. No Workspace is
  -- among them, and nothing is deleted.
  pub data IsAppWrite : Request → Type 0 where
    ensures :
        (app : PerUserApp) (o : RouterObject)
        → IsServed app
        → IsRendered setup (valid_condition lib app) o
        → IsAppWrite (create_or_update o)
    reports :
        (app : PerUserApp) (conditions : List Condition)
        → equal_conditions lib conditions app.conditions ≡ false
        → IsAppWrite (patch_app_status app (record app { conditions = conditions }))

  pub report-IsAppWrite :
      (app : PerUserApp) (conditions : List Condition)
      → Keeps
          (λ q. IsAppWrite q)
          (patch_app_status_if_changed c lib setup (record app { conditions = conditions }) app)
  unfolding patch_app_status_if_changed
  report-IsAppWrite app conditions =
      if_cases (λ (m : M c.Server (Unit {0})). Keeps (λ q. IsAppWrite q) m)
        (equal_conditions lib conditions app.conditions) (pure tt)
        (send c (patch_app_status app (record app { conditions = conditions }))) (λ t w h. h)
        (λ t.
          Keeps-send c (λ q. IsAppWrite q)
            (patch_app_status app (record app { conditions = conditions }))
            (reports app conditions t))

  module _ (app : PerUserApp) (served : IsServed app) where
    abbrev next : PerUserApp
    next = valid_condition lib app

    abbrev pub Written : {A : Type 0} → M c.Server A → Type 0
    Written m = Keeps (λ q. IsAppWrite q) m

    warned : (ws : List Warning) → Written (warn c lib setup next ws)
    warned [] w h = h
    warned (m ∷ ws) w h =
        warned ws (record w { log = config_warning next.key (setup.warning_text m) ∷ w.log }) h

    in_turn : (m k : M c.Server (Unit {0})) → Written m → Written k → Written (m >> k)
    in_turn m k h l = Keeps-bind (λ q. IsAppWrite q) m (λ _. k) h (λ _. l)

    rendered : (o : RouterObject) → IsRendered setup next o → Written (ensure c lib setup o)
    rendered o r = Keeps-send c (λ q. IsAppWrite q) (create_or_update o) (ensures app o served r)

    router_identity-Keeps : Written (ensure_router_identity c lib setup next)
    unfolding ensure_router_identity
    router_identity-Keeps =
        in_turn (ensure c lib setup (router_account (render_router_service_account next)))
          (ensure c lib setup (router_binding (render_router_role_binding next)))
          (rendered (router_account (render_router_service_account next)) router_sa)
          (rendered (router_binding (render_router_role_binding next)) binding)

    abbrev router_rules : RouterObject
    router_rules = router_policy (render_router_network_policy next setup.pod_cidr setup.node_cidr)

    abbrev router_front : RouterObject
    router_front = router_service (render_router_service next)

    abbrev routers : RouterObject
    routers = router_deployment (setup.deployment next (resolve_image setup next))

    router_workload-Keeps : Written (ensure_router_workload c lib setup next)
    unfolding ensure_router_workload
    router_workload-Keeps =
        in_turn (ensure c lib setup routers)
          (ensure c lib setup router_front >> ensure c lib setup router_rules)
          (rendered routers deployment)
          (in_turn (ensure c lib setup router_front) (ensure c lib setup router_rules)
            (rendered router_front service) (rendered router_rules policy))

    report_limit-Keeps : (reached : Bool) → Written (report_limit c lib setup app next reached)
    unfolding set_app_condition
    report_limit-Keeps true = report-IsAppWrite app (limit_condition lib next true).conditions
    report_limit-Keeps false = report-IsAppWrite app (limit_condition lib next false).conditions

    abbrev limit : M c.Server (Unit {0})
    limit = workspace_limit_reached c lib setup next >>= report_limit c lib setup app next

    limit-Keeps : Written limit
    unfolding workspace_limit_reached
    limit-Keeps =
        Keeps-bind (λ q. IsAppWrite q) (workspace_limit_reached c lib setup next)
          (report_limit c lib setup app next)
          (Keeps-bind (λ q. IsAppWrite q)
            (read (c.list_workspaces next.key.namespace next.key.name))
            (λ l. pure (leb_ℤ next.spec.limits.max_workspaces (wrap32 (pos (length l))))) (λ v k. k)
            (λ l v k. k))
          report_limit-Keeps

    abbrev workload : M c.Server (Unit {0})
    workload = ensure_router_workload c lib setup next >> limit

    abbrev identities : M c.Server (Unit {0})
    identities = ensure_router_identity c lib setup next >> workload

    pub ensure_app-IsAppWrite : (ws : List Warning) → Written (ensure_app c lib setup app next ws)
    unfolding ensure_app ensure_workspace_identity
    ensure_app-IsAppWrite ws =
        in_turn (warn c lib setup next ws)
          (ensure_workspace_identity c lib setup next >> identities) (warned ws)
          (in_turn (ensure_workspace_identity c lib setup next) identities
            (rendered (workspace_account (render_workspace_service_account next)) workspace_sa)
            (in_turn (ensure_router_identity c lib setup next) workload router_identity-Keeps (
              in_turn (ensure_router_workload c lib setup next) limit router_workload-Keeps
                limit-Keeps)))
