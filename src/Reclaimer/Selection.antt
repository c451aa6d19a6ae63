-- ===== src/Reclaimer/Selection.antt =====
-- internal/controller/reclaimer.go: which workspaces are deleted, and in which order.
pub mod Laws
use per_user_container_opera.Common.{
  ℕ, Bool, true, false, not, ◌||◌, Option, none, some, List, [], Time, ℤ, pos, ◌-ℤ◌, pos_part,
  ltb_ℤ, leb_ℤ, eqb_ℤ, time_sub, before, is_some, if◌then◌else◌, length, take, keep, sort_stable,
}
use per_user_container_opera.Api.Workspace.{Workspace, idle, failed, phase_eq}
use per_user_container_opera.Api.App.{PerUserApp, ReclaimSpec}
use per_user_container_opera.Reaper.Predicate.{fresh_connection_count}

-- `app.Spec.Reclaim`, if it is set and enabled.
abbrev pub enabled_reclaim : PerUserApp → Option ReclaimSpec
enabled_reclaim app = elim app.spec.reclaim [
  | none ↦ none
  | some spec ↦ if spec.enabled then some spec else none
]

-- `isReclaimable`; `spec` is `app.Spec.Reclaim`, which its callers know to be set.
unfoldable pub is_reclaimable : Workspace → PerUserApp → ReclaimSpec → Time → Bool
is_reclaimable ws app spec now =
    if is_some ws.deletion_timestamp
    then false
    else if phase_eq ws.status.phase idle || phase_eq ws.status.phase failed
    then elim ws.status.last_activity [
      | none ↦ false
      | some at ↦
          if ltb_ℤ (time_sub now at) spec.min_idle_age
          then false
          else eqb_ℤ (fresh_connection_count ws app now) (pos 0)
    ]
    else false

-- A workspace that is not being deleted.
abbrev pub is_live : Workspace → Bool
is_live ws = not (is_some ws.deletion_timestamp)

-- `candidates[i].Status.LastActivity.Time.Before(candidates[j].Status.LastActivity.Time)`; the
-- candidates have one, and a missing one (a nil dereference there) sorts as no order.
abbrev pub less_recent : Workspace → Workspace → Bool
less_recent a b = elim a.status.last_activity [
  | none ↦ false
  | some s ↦ elim b.status.last_activity [ none ↦ false | some t ↦ before s t ]
]

-- `len(live) - int(targetWorkspaces)`.
abbrev pub overage : ReclaimSpec → List Workspace → ℤ
overage spec live = pos (length live) -ℤ spec.target_workspaces

abbrev pub candidates : PerUserApp → ReclaimSpec → Time → List Workspace → List Workspace
candidates app spec now live = keep (λ ws. is_reclaimable ws app spec now) live

-- `reclaimApp` from `live` to the last cut: what it goes on to delete, in order.
unfoldable pub victims : PerUserApp → ReclaimSpec → Time → List Workspace → List Workspace
victims app spec now workspaces =
    let live = keep is_live workspaces in
    let over = overage spec live in
    if leb_ℤ over (pos 0)
    then []
    else take (pos_part over) (sort_stable less_recent (candidates app spec now live))
