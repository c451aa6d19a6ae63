-- ===== src/Reclaimer/Selection/Laws.antt =====
-- Which workspaces are reclaimed, and in which order (internal/controller/reclaimer.go, isReclaimable
-- and reclaimApp).
use mathlib.Core.List.{Perm, Memᴰ}
use mathlib.Core.List.Perm
use per_user_container_opera.Common.{
  ℕ, ◌≡◌, ◌∙◌, ap, ◌↔◌, ◌⊎◌, inl, inr, true, false, none, some, List, ◌++◌, min, pos_part, drop,
  take-append-drop, take-sort_stable, sort_stable-perm, length-sort_stable, length-take, All-keep,
  All-keep-members, All-Memᴰ, All-sort_stable, Bool-cases, leb_ℤ, Time, pos, ◌+ℤ◌, ◌≤ℤ◌, IsInner,
  time_sub-lt, length, keep, sort_stable, All, All-take, arith, Option-cases,
}
use per_user_container_opera.Api.Workspace.{Workspace, idle, failed}
use per_user_container_opera.Api.App.{PerUserApp, ReclaimSpec}
use per_user_container_opera.Reaper.Predicate.{fresh_connection_count}
use per_user_container_opera.Reclaimer.Selection.{
  is_reclaimable, is_live, less_recent, overage, candidates, victims,
}

-- `isReclaimable` holds exactly if the workspace is not being deleted, is Idle or Failed, was last
-- active at least `minIdleAge` ago at a known time, and has no fresh connection. (The age is
-- inside the range of int64.)
is_reclaimable_iff :
    (ws : Workspace) (app : PerUserApp) (spec : ReclaimSpec) (now : Time)
    → IsInner spec.min_idle_age
    → (is_reclaimable ws app spec now ≡ true) ↔ (
        (ws.deletion_timestamp ≡ none)
        × ((ws.status.phase ≡ idle) ⊎ (ws.status.phase ≡ failed))
        × ((at : Time) × (ws.status.last_activity ≡ some at) × (at +ℤ spec.min_idle_age ≤ℤ now))
        × (fresh_connection_count ws app now ≡ pos 0))
unfolding is_reclaimable
is_reclaimable_iff ws app spec now h = elim (Option-cases ws.status.last_activity) [
  | inl e ↦ (λ t. ground arith, λ c. ground (arith, c.2.1))
  | inr (at, e) ↦ (
    λ t. (
      ground arith,
      ground arith,
      (at, e, ground (arith, time_sub-lt now at spec.min_idle_age h)),
      ground arith,
    ),
    λ c. ground (arith, c.2.1, time_sub-lt now at spec.min_idle_age h),
  )
]

-- The workspace has a time of last activity.
abbrev HasActivity : Workspace → Type 0
HasActivity ws = (at : Time) × (ws.status.last_activity ≡ some at)

reclaimable-HasActivity :
    (app : PerUserApp) (spec : ReclaimSpec) (now : Time) (ws : Workspace)
    → is_reclaimable ws app spec now ≡ true
    → HasActivity ws
unfolding is_reclaimable
reclaimable-HasActivity app spec now ws t = elim (Option-cases ws.status.last_activity) [
  | inl e ↦ absurd (ground arith)
  | inr h ↦ h
]

less_recent-asym :
    (a b : Workspace)
    → HasActivity a
    → HasActivity b
    → less_recent a b ≡ true
    → less_recent b a ≡ false
less_recent-asym a b (s, p) (t, q) h = ground arith

less_recent_trans :
    (a b c : Workspace)
    → HasActivity a
    → HasActivity b
    → HasActivity c
    → less_recent b a ≡ false
    → less_recent c b ≡ false
    → less_recent c a ≡ false
less_recent_trans a b c (s, p) (t, q) (u, r) h k = ground arith

module _ (app : PerUserApp) (spec : ReclaimSpec) (now : Time) (workspaces : List Workspace) where
  abbrev live : List Workspace
  live = keep is_live workspaces

  -- As many workspaces are deleted as the live ones are over the target, or as there are
  -- candidates if these are fewer; none if the app is not over its target.
  length-victims :
      length (victims app spec now workspaces)
      ≡ min (pos_part (overage spec live)) (length (candidates app spec now live))
  unfolding victims
  length-victims = elim (Bool-cases (leb_ℤ (overage spec live) (pos 0))) [
    | inl e ↦ rw e (ground (arith, e))
    | inr e ↦ rw e (
        length-take (pos_part (overage spec live))
          (sort_stable less_recent (candidates app spec now live))
        ∙ ap (λ (n : ℕ). min (pos_part (overage spec live)) n)
            (length-sort_stable less_recent (candidates app spec now live)))
  ]

  -- What is deleted is least recently used: with the rest of the candidates it makes up all of
  -- them, and no candidate of the rest was last active before one that is deleted.
  pub victims_oldest :
      (rest : List Workspace) × Perm
        (victims app spec now workspaces ++ rest)
        (candidates app spec now live)
      × All (λ v. All (λ u. less_recent u v ≡ false) rest) (victims app spec now workspaces)
  unfolding victims
  victims_oldest =
      let cs = candidates app spec now live in
      let sorted = sort_stable less_recent cs in
      let n = pos_part (overage spec live) in
      elim (Bool-cases (leb_ℤ (overage spec live) (pos 0))) [
        | inl e ↦ rw e (cs, Perm.refl cs, tt)
        | inr e ↦ rw e (
          drop n sorted,
          rw (take-append-drop n sorted) (sort_stable-perm less_recent cs),
          take-sort_stable less_recent HasActivity less_recent-asym less_recent_trans n cs (
              All-keep HasActivity (λ ws. is_reclaimable ws app spec now) live
                (reclaimable-HasActivity app spec now)),
        )
      ]

  -- Everything deleted is live and passes `isReclaimable`.
  pub victims_reclaimable :
      All (λ ws. is_reclaimable ws app spec now ≡ true) (victims app spec now workspaces)
  unfolding victims
  victims_reclaimable = elim (Bool-cases (leb_ℤ (overage spec live) (pos 0))) [
    | inl e ↦ rw e tt
    | inr e ↦ rw e (
        All-take (λ ws. is_reclaimable ws app spec now ≡ true) (pos_part (overage spec live)) _
          (All-sort_stable less_recent (λ ws. is_reclaimable ws app spec now ≡ true)
            (candidates app spec now live)
            (All-keep _ (λ ws. is_reclaimable ws app spec now) live (λ ws t. t))))
  ]

  -- A workspace of the list that is live and reclaimable.
  abbrev pub IsCandidate : Workspace → Type 0
  IsCandidate ws =
      Memᴰ ws workspaces × (is_live ws ≡ true) × (is_reclaimable ws app spec now ≡ true)

  -- Everything deleted is a live workspace of the list.
  pub victims-IsCandidate : All IsCandidate (victims app spec now workspaces)
  unfolding victims
  victims-IsCandidate = elim (Bool-cases (leb_ℤ (overage spec live) (pos 0))) [
    | inl e ↦ rw e tt
    | inr e ↦ rw e (
        All-take IsCandidate (pos_part (overage spec live)) _ (
          All-sort_stable less_recent IsCandidate (candidates app spec now live) (
            All-keep-members IsCandidate (λ ws. is_reclaimable ws app spec now) live
              (λ ws m t.
                let (l, a) =
                  All-Memᴰ (λ (v : Workspace). Memᴰ v workspaces × (is_live v ≡ true))
                    (All-keep-members (λ v. Memᴰ v workspaces × (is_live v ≡ true)) is_live
                      workspaces (λ v n u. (n, u)))
                    m in
                (l, a, t)))))
  ]
