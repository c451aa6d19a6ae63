-- ===== src/Apps.antt =====
-- internal/controller/peruserapp_controller.go: one reconcile of an app. What its router's Deployment
-- is rendered as beside its image, and the texts of errors and warnings, are parameters.
pub mod Ensured
pub mod Writes
pub mod Conditions
use per_user_container_opera.Common.{
  Bool, true, false, not, ◌&&◌, Option, none, some, List, [], ◌∷◌, Text, codes, text_eq, ℤ, pos,
  leb_ℤ, wrap32, length, ◌==◌, if◌then◌else◌, ◌⊎◌, inl, inr, ApiError, is_not_found, Result, ok,
  err,
}
use per_user_container_opera.Api.Workspace.{
  Workspace, Key, Condition, ConditionStatus, condition_true, condition_false, condition_unknown,
}
use per_user_container_opera.Api.App.{PerUserApp}
use per_user_container_opera.Api.Objects.{
  Deployment, ReclaimPolicy, retain, delete, recycle, RouterObject, workspace_account,
  router_account, router_binding, router_deployment, router_service, router_policy,
}
use per_user_container_opera.Cluster.{
  Client, World, M, ◌>>=◌, ◌>>◌, then_step, pure, fail, read, send, emit, config_warning,
  create_or_update, patch_app_status,
}
use per_user_container_opera.Reconciler.Storage.{Library}
use per_user_container_opera.Rendering.Labels.{
  render_workspace_service_account, render_router_service_account, render_router_role_binding,
  render_router_service,
}
use per_user_container_opera.Rendering.Policies.{render_router_network_policy}
use per_user_container_opera.Rendering.Validate.{ConfigError, Warning, validate_app, is_nil}

abbrev pub cond_config_valid : Text
cond_config_valid = codes "ConfigValid"

abbrev pub cond_workspace_limit_reached : Text
cond_workspace_limit_reached = codes "WorkspaceLimitReached"

abbrev pub reason_config_invalid : Text
reason_config_invalid = codes "ConfigInvalid"

-- Why an app is not served: by ValidateApp, since its StorageClass cannot be read or does not retain
-- volumes, or since there is no image of a router.
pub data AppError : Type 0 where
  invalid : ConfigError → AppError
  class_unread : ApiError → AppError
  not_retained : Option ReclaimPolicy → AppError
  image_unresolved : AppError

pub record Setup : Type 0 where
  pub router_image : Text
  pub pod_cidr : Text
  pub node_cidr : Text
  pub deployment : PerUserApp → Text → Deployment
  pub error_text : AppError → Text
  pub warning_text : Warning → Text

-- What the answer about the StorageClass says.
abbrev pub class_error : Result (Option ReclaimPolicy) → Option AppError
class_error (err e) = some (class_unread e)
class_error (ok none) = some (not_retained none)
class_error (ok (some retain)) = none
class_error (ok (some delete)) = some (not_retained (some delete))
class_error (ok (some recycle)) = some (not_retained (some recycle))

abbrev pub status_eq : ConditionStatus → ConditionStatus → Bool
status_eq condition_true condition_true = true
status_eq condition_false condition_false = true
status_eq condition_unknown condition_unknown = true
status_eq _ _ = false

abbrev pub same_condition : Condition → Option Condition → Bool
same_condition ca none = false
same_condition ca (some cb) =
    status_eq cb.status ca.status && text_eq cb.reason ca.reason && text_eq cb.message ca.message

-- `equalConditions`, and its loop.
unfoldable pub all_found : Library → List Condition → List Condition → Bool
all_found lib [] b = true
all_found lib (ca ∷ a) b =
    same_condition ca (lib.find_status_condition b ca.type) && all_found lib a b

unfoldable pub equal_conditions : Library → List Condition → List Condition → Bool
unfolding all_found
equal_conditions lib a b = if length a == length b then all_found lib a b else false

unfoldable pub set_app_condition :
    Library → PerUserApp → Text → ConditionStatus → Text → Text → PerUserApp
set_app_condition lib app type status reason message = record app {
  conditions = lib.set_status_condition app.conditions (record {
    type = type;
    status = status;
    reason = reason;
    message = message;
    observed_generation = app.generation;
  });
}

-- The image of the router, or none.
abbrev pub resolve_image : Setup → PerUserApp → Text
resolve_image setup app =
    if is_nil app.spec.router.image then setup.router_image else app.spec.router.image

abbrev pub limit_condition : Library → PerUserApp → Bool → PerUserApp
limit_condition lib app true =
    set_app_condition lib app cond_workspace_limit_reached condition_true (codes "LimitReached")
      (codes "the fleet is at spec.limits.maxWorkspaces")
limit_condition lib app false =
    set_app_condition lib app cond_workspace_limit_reached condition_false (codes "BelowLimit")
      (codes "the fleet is below spec.limits.maxWorkspaces")

abbrev pub invalid_condition : Library → Setup → PerUserApp → AppError → PerUserApp
invalid_condition lib setup app e =
    set_app_condition lib app cond_config_valid condition_false reason_config_invalid
      (setup.error_text e)

abbrev pub valid_condition : Library → PerUserApp → PerUserApp
valid_condition lib app =
    set_app_condition lib app cond_config_valid condition_true (codes "Valid")
      (codes "spec passed validation")

module _ (c : Client) (lib : Library) (setup : Setup) where
  -- The read that ValidateStorageClass makes; whatever it answers, the reconcile goes on.
  unfoldable pub validate_storage_class :
      PerUserApp → World c.Server → Option AppError × World c.Server
  validate_storage_class app w =
      let (r, s) = c.get_storage_class app.spec.storage.storage_class_name w.server in
      (class_error r, record w { server = s })

  abbrev pub image_error : PerUserApp → Option AppError
  image_error app = if is_nil (resolve_image setup app) then some image_unresolved else none

  abbrev pub after_class :
      PerUserApp
      → List Warning
      → Option AppError × World c.Server
      → (AppError ⊎ List Warning) × World c.Server
  after_class app warnings (some e, w) = (inl e, w)
  after_class app warnings (none, w) =
      (elim (image_error app) [ none ↦ inr warnings | some e ↦ inl e ], w)

  abbrev pub after_validation :
      PerUserApp
      → ConfigError ⊎ List Warning
      → World c.Server
      → (AppError ⊎ List Warning) × World c.Server
  after_validation app (inl e) w = (inl (invalid e), w)
  after_validation app (inr warnings) w = after_class app warnings (validate_storage_class app w)

  -- The whole validation: the error, or the warnings.
  unfoldable pub check_config :
      PerUserApp → World c.Server → (AppError ⊎ List Warning) × World c.Server
  unfolding validate_storage_class
  check_config app w = after_validation app (validate_app app) w

  abbrev pub ensure : RouterObject → M c.Server (Unit {0})
  ensure o = send c (create_or_update o)

  unfoldable pub ensure_workspace_identity : PerUserApp → M c.Server (Unit {0})
  ensure_workspace_identity app = ensure (workspace_account (render_workspace_service_account app))

  unfoldable pub ensure_router_identity : PerUserApp → M c.Server (Unit {0})
  ensure_router_identity app =
      ensure (router_account (render_router_service_account app))
      >> ensure (router_binding (render_router_role_binding app))

  -- The image is resolved before, so rendering the Deployment does not fail.
  unfoldable pub ensure_router_workload : PerUserApp → M c.Server (Unit {0})
  ensure_router_workload app = do
    _ ← ensure (router_deployment (setup.deployment app (resolve_image setup app)))
    _ ← ensure (router_service (render_router_service app))
    ensure (router_policy (render_router_network_policy app setup.pod_cidr setup.node_cidr))

  unfoldable pub workspace_limit_reached : PerUserApp → M c.Server Bool
  workspace_limit_reached app =
      read (c.list_workspaces app.key.namespace app.key.name)
      >>= (λ list. pure (leb_ℤ app.spec.limits.max_workspaces (wrap32 (pos (length list)))))

  unfoldable pub patch_app_status_if_changed : PerUserApp → PerUserApp → M c.Server (Unit {0})
  patch_app_status_if_changed app base =
      if equal_conditions lib app.conditions base.conditions
      then pure tt
      else send c (patch_app_status base app)

  abbrev pub warn : PerUserApp → List Warning → M c.Server (Unit {0})
  warn app [] = pure tt
  warn app (m ∷ more) = emit (config_warning app.key (setup.warning_text m)) >> warn app more

  abbrev pub report_limit : PerUserApp → PerUserApp → Bool → M c.Server (Unit {0})
  report_limit base app reached = patch_app_status_if_changed (limit_condition lib app reached) base

  -- What is done for a valid app.
  unfoldable pub ensure_app : PerUserApp → PerUserApp → List Warning → M c.Server (Unit {0})
  ensure_app base app warnings = do
    _ ← warn app warnings
    _ ← ensure_workspace_identity app
    _ ← ensure_router_identity app
    _ ← ensure_router_workload app
    reached ← workspace_limit_reached app
    report_limit base app reached

  abbrev pub by_config :
      PerUserApp → (AppError ⊎ List Warning) × World c.Server → Result (Unit {0}) × World c.Server
  by_config app (inl e, w) = patch_app_status_if_changed (invalid_condition lib setup app e) app w
  by_config app (inr warnings, w) = ensure_app app (valid_condition lib app) warnings w

  abbrev pub by_answer : Result PerUserApp × World c.Server → Result (Unit {0}) × World c.Server
  by_answer (ok app, w) = by_config app (check_config app w)
  by_answer (err e, w) = if is_not_found e then (ok tt, w) else (err e, w)

  -- `Reconcile`: its result never asks to be run again.
  unfoldable pub reconcile_per_user_app : Key → M c.Server (Unit {0})
  unfolding check_config ensure_app
  reconcile_per_user_app key w = by_answer (read (c.get_app key) w)

-- `mapWorkspaceToApp`.
unfoldable pub map_workspace_to_app : Workspace → List Key
map_workspace_to_app ws =
    if is_nil ws.spec.app_ref
    then []
    else record { namespace = ws.key.namespace; name = ws.spec.app_ref } ∷ []
