-- ===== src/Admission/Queue.antt =====
-- internal/controller/admission.go: `TryAdmit`. `find` is `meta.FindStatusCondition`.
pub mod Laws
use per_user_container_opera.Common.{
  ℕ, Bool, true, false, not, Option, none, some, List, [], ◌∷◌, Text, Time, ℤ, pos, ◌-ℤ◌, pos_part,
  leb_ℤ, before, is_some, if◌then◌else◌, length, take, keep, any, sort_stable, ◌&&◌,
}
use per_user_container_opera.Api.Workspace.{
  Workspace, Condition, ConditionStatus, condition_true, condition_false, condition_unknown,
  starting, pending, phase_eq, key_eq, cond_migration_complete,
}
use per_user_container_opera.Api.App.{PerUserApp}
use per_user_container_opera.Cluster.{Client, M, ◌>>=◌, then_step, pure, read}

-- `enqueueKey`.
unfoldable pub enqueue_key : Workspace → Time
enqueue_key w = elim w.status.enqueued_at [ none ↦ w.creation_timestamp | some t ↦ t ]

abbrev pub earlier : Workspace → Workspace → Bool
earlier a b = before (enqueue_key a) (enqueue_key b)

-- A Starting workspace that takes a slot: one whose start has not failed.
abbrev pub is_occupying : Workspace → Bool
is_occupying w = phase_eq w.status.phase starting && not (is_some w.status.backoff_until)

abbrev pub is_pending : Workspace → Bool
is_pending w = phase_eq w.status.phase pending

-- `occupied`, and `slots`.
abbrev pub occupied : List Workspace → ℕ
occupied l = length (keep is_occupying l)

abbrev pub slots : PerUserApp → List Workspace → ℤ
slots app l = app.spec.limits.max_concurrent_starts -ℤ pos (occupied l)

-- The workspaces that the last loop looks at: the earliest in the queue, one for each slot.
unfoldable pub front : PerUserApp → List Workspace → List Workspace
front app l =
    if leb_ℤ (slots app l) (pos 0)
    then []
    else take (pos_part (slots app l)) (sort_stable earlier (keep is_pending l))

unfoldable pub has_turn : Workspace → PerUserApp → List Workspace → Bool
has_turn ws app l = any (λ w. key_eq w.key ws.key) (front app l)

-- A migration that is declared and not complete.
abbrev pub is_migrating : Option Condition → Bool
is_migrating none = false
is_migrating (some cond) = not (is_true cond.status)
  where
    is_true : ConditionStatus → Bool
    is_true condition_true = true
    is_true condition_false = false
    is_true condition_unknown = false

-- `BackoffUntil != nil && now.Before(BackoffUntil)`.
abbrev pub in_backoff : Option Time → Time → Bool
in_backoff none now = false
in_backoff (some until) now = before now until

unfoldable pub try_admit :
    (c : Client)
    → (List Condition → Text → Option Condition)
    → Time
    → Workspace
    → PerUserApp
    → M c.Server Bool
try_admit c find now ws app =
    if is_migrating (find app.conditions cond_migration_complete)
    then pure false
    else if in_backoff ws.status.backoff_until now
    then pure false
    else do l ← read (c.list_workspaces ws.key.namespace app.key.name); pure (has_turn ws app l)
