-- ===== src/Reconciler/Step.antt =====
-- internal/controller/workspace_controller.go: the pieces of a reconcile that make no call.
use per_user_container_opera.Common.{
  Bool, true, false, not, Option, none, some, List, [], ◌∷◌, Text, Time, Duration, pos, ltb_ℤ,
  time_add, before, if◌then◌else◌, Result, ok, err,
}
use per_user_container_opera.Api.Workspace.{
  Workspace, Phase, ConditionStatus, pending, starting, ready, condition_true, condition_false,
  condition_unknown,
}
use per_user_container_opera.Api.App.{PerUserApp}
use per_user_container_opera.Api.Objects.{Pod}
use per_user_container_opera.Cluster.{World}
use per_user_container_opera.Identity.UserKey.{child_name}
use per_user_container_opera.Reconciler.Storage.{Outcome}

-- `ctrl.Result`: after how long to reconcile again, if at all.
abbrev pub Requeue : Type 0
Requeue = Option Duration

pub record Intervals : Type 0 where
  pub pending_retry : Duration
  pub starting_poll : Duration
  pub steady_state : Duration

-- An interval that is set, or its default.
abbrev pub or_default : Duration → Duration → Duration
or_default interval default = if ltb_ℤ (pos 0) interval then interval else default

-- A call that has the workspace as its state.
abbrev pub Step : Type 0 → Type 0 → Type 0
Step S A = Workspace → World S → Outcome S A

module _ {S : Type 0} where
  abbrev pub done : {A : Type 0} → A → Step S A
  done a ws w = (ok a, ws, w)

  abbrev pub after : {A B : Type 0} → (A → Step S B) → Outcome S A → Outcome S B
  after f (ok a, ws, w) = f a ws w
  after f (err e, ws, w) = (err e, ws, w)

  -- A call that leaves the workspace as it is.
  abbrev pub call : {A : Type 0} → Workspace → Result A × World S → Outcome S A
  call ws (r, w) = (r, ws, w)

-- `firstWaitingReason`.
abbrev pub first_waiting_reason : List (Option Text) → Text
first_waiting_reason [] = []
first_waiting_reason (none ∷ rest) = first_waiting_reason rest
first_waiting_reason (some reason ∷ rest) = reason

abbrev pub is_not_true : ConditionStatus → Bool
is_not_true condition_true = false
is_not_true condition_false = true
is_not_true condition_unknown = true

abbrev pub any_not_true : List ConditionStatus → Bool
any_not_true [] = false
any_not_true (status ∷ rest) = if is_not_true status then true else any_not_true rest

abbrev pub is_empty : {A : Type 0} → List A → Bool
is_empty [] = true
is_empty (x ∷ l) = false

unfoldable pub is_rwop_conflict_pending : Pod → Bool
is_rwop_conflict_pending pod =
    if not pod.is_pending
    then false
    else if not (is_empty pod.waiting)
    then false
    else any_not_true pod.conditions

abbrev pub in_phase : Phase → Workspace → Workspace
in_phase phase ws = record ws { status = record (ws.status) { phase = phase } }

abbrev pub waiting_for : Text → Workspace → Workspace
waiting_for reason ws = record ws { status = record (ws.status) { waiting_reason = reason } }

-- The wake of `reconcileReady` and `reconcileIdle`.
abbrev pub woken : Workspace → Workspace
woken ws = record ws {
  status = record (ws.status) { wake_requested_at = none; scaled_down = false; phase = pending };
}

abbrev pub first_pod : List Pod → Option Pod
first_pod [] = none
first_pod (pod ∷ rest) = some pod

-- `transitionToReady`, on the workspace.
abbrev pub readied : PerUserApp → Option Pod → Workspace → Workspace
readied app pod ws = record ws {
  status = record (ws.status) {
    phase = ready;
    service_ref = child_name app.key.name ws.spec.user_key;
    pvc_ref = child_name app.key.name ws.spec.user_key;
    pod_ref = elim pod [ none ↦ ws.status.pod_ref | some p ↦ p.name ];
    start_deadline = none;
    consecutive_failures = pos 0;
    waiting_reason = [];
  };
}

-- An admitted workspace.
abbrev pub starting_from : PerUserApp → Time → Workspace → Workspace
starting_from app now ws = record ws {
  status = record (ws.status) {
    phase = starting;
    start_deadline = some (time_add now app.spec.lifecycle.startup_timeout);
  };
}

-- `ws.Status.StartDeadline != nil && !now.Before(...)`.
abbrev pub is_overdue : Option Time → Time → Bool
is_overdue none now = false
is_overdue (some deadline) now = not (before now deadline)

-- `ws.Status.BackoffUntil != nil && now.After(...)`.
abbrev pub is_over : Option Time → Time → Bool
is_over none now = false
is_over (some until) now = before until now

-- A property of the workspace that a call leaves, by that of the call before it.
pub after-state :
    {S A B : Type 0} (P : Workspace → Type 0) (f : A → Step S B) (r : Outcome S A)
    → ((a : A) (w : World S) → P (f a r.1 w).1)
    → P r.1
    → P (after f r).1
after-state P f (ok a, v, w) h k = h a w
after-state P f (err e, v, w) h k = k
