-- ===== src/Reconciler/Storage/Kept.antt =====
-- The fields that the phases go by, over a pass of reconcilePVC
-- (internal/controller/workspace_controller.go).
use per_user_container_opera.Common.{
  ◌≡◌, refl, ◌∙◌, inl, inr, Bool, false, Option, List, [], ◌∷◌, Time, ltb_ℤ, eqb_ℤ, if_cases,
  Result, ok, err, is_already_exists, Bool-cases, Option-cases,
}
use per_user_container_opera.Api.Workspace.{
  Workspace, Key, WorkspaceSpec, Phase, Quantity, cond_ambiguous_volume,
  cond_storage_shrink_rejected,
}
use per_user_container_opera.Api.App.{PerUserApp}
use per_user_container_opera.Api.Objects.{Claim}
use per_user_container_opera.Cluster.{Client, World, read, send_create_claim, send_claim_patch}
use per_user_container_opera.Reconciler.Storage.{
  Library, Outcome, set_condition, clear_condition, raise_largest_observed, with_claim, value_or,
  render_workspace_pvc, size_of, is_drifted, resized, is_shrink, after_resize, compare_sizes,
  observe_capacity, reconcile_existing_pvc, after_create, choose_claim, reconcile_pvc,
}

-- The fields that decide on a phase, and what a workspace is named by.
abbrev pub core :
    Workspace → Phase × Bool × Option Time × Option Time × Option Time × Key × WorkspaceSpec
core ws = (
  ws.status.phase, ws.status.scaled_down, ws.status.wake_requested_at, ws.status.backoff_until,
  ws.status.start_deadline, ws.key, ws.spec,
)

raise-core : (size : Quantity) (ws : Workspace) → core (raise_largest_observed size ws) ≡ core ws
unfolding raise_largest_observed
raise-core size ws = elim (Option-cases ws.status.largest_observed_size) [
  | inl e ↦ rw e refl
  | inr (s, e) ↦ elim (Bool-cases (ltb_ℤ s size)) [
    | inl t ↦ rw (e, t) refl
    | inr t ↦ rw (e, t) refl
  ]
]

module _ (c : Client) (lib : Library) where
  abbrev Same : {A : Type 0} → Workspace → Outcome c.Server A → Type 0
  Same ws r = core r.1 ≡ core ws

  after_resize-core :
      (ws : Workspace) (size : Quantity) (r : Result Claim × World c.Server)
      → Same ws (after_resize c lib ws size r)
  unfolding after_resize clear_condition
  after_resize-core ws size (ok claim, w) = raise-core size ws
  after_resize-core ws size (err e, w) = refl

  compare_sizes-core :
      (ws : Workspace) (existing desired : Claim) (w : World c.Server)
      → Same ws (compare_sizes c lib ws existing desired w)
  unfolding compare_sizes set_condition clear_condition
  compare_sizes-core ws existing desired w =
      if_cases (Same ws) (ltb_ℤ (size_of existing) (size_of desired)) _ _
        (λ t.
          if_cases (Same ws) existing.bound _ (ok existing, ws, w)
            (λ b.
              after_resize-core ws (size_of desired)
                (send_claim_patch c existing (resized existing (size_of desired)) w))
            (λ b. refl))
        (λ t.
          if_cases (Same ws) (eqb_ℤ (size_of existing) (size_of desired)) _ _
            (λ q.
              if_cases (λ v. core v ≡ core ws) (is_drifted existing desired) _ _ (λ d. refl)
                (λ d. refl))
            (λ q. refl))

  observe_capacity-core :
      (r : Outcome c.Server Claim) → core (observe_capacity c lib r).1 ≡ core r.1
  unfolding observe_capacity
  observe_capacity-core (ok claim, v, w) =
      if_cases (λ u. core u ≡ core v) claim.bound
        (raise_largest_observed (value_or (size_of claim) claim.capacity) v) v
        (λ b. raise-core (value_or (size_of claim) claim.capacity) v) (λ b. refl)
  observe_capacity-core (err e, v, w) = refl

  existing-core :
      (app : PerUserApp) (existing : Claim) (ws : Workspace) (w : World c.Server)
      → Same ws (reconcile_existing_pvc c lib app existing ws w)
  unfolding reconcile_existing_pvc
  existing-core app existing ws w =
      let named = with_claim ws existing.key.name in
      let desired = render_workspace_pvc app named in
      observe_capacity-core (compare_sizes c lib named existing desired w)
      ∙ compare_sizes-core named existing desired w

  after_create-core :
      (desired : Claim) (ws : Workspace) (r : Result Claim × World c.Server)
      → Same ws (after_create c lib desired ws r)
  unfolding after_create clear_condition
  after_create-core desired ws (ok claim, w) =
      raise-core (size_of claim) (with_claim ws claim.key.name)
  after_create-core desired ws (err e, w) =
      if_cases (Same ws) (is_already_exists e) _ (err e, ws, w)
        (λ t. raise-core (size_of desired) (with_claim ws desired.key.name)) (λ t. refl)

  choose_claim-core :
      (app : PerUserApp) (allow : Bool) (ws : Workspace) (r : Result (List Claim) × World c.Server)
      → Same ws (choose_claim c lib app allow ws r)
  unfolding choose_claim clear_condition set_condition
  choose_claim-core app allow ws (ok [], w) =
      let clear = clear_condition lib ws cond_ambiguous_volume in
      let desired = render_workspace_pvc app clear in
      if_cases (Same ws) allow _ (ok false, clear, w)
        (λ t. after_create-core desired clear (send_create_claim c desired w)) (λ t. refl)
  choose_claim-core app allow ws (ok (existing ∷ []), w) =
      existing-core app existing (clear_condition lib ws cond_ambiguous_volume) w
  choose_claim-core app allow ws (ok (one ∷ two ∷ more), w) = refl
  choose_claim-core app allow ws (err e, w) = refl

  pub reconcile_pvc-core :
      (app : PerUserApp) (allow : Bool) (ws : Workspace) (w : World c.Server)
      → Same ws (reconcile_pvc c lib app allow ws w)
  unfolding reconcile_pvc set_condition clear_condition
  reconcile_pvc-core app allow ws w =
      if_cases (Same ws) (is_shrink app ws) _ _ (λ t. refl)
        (λ t.
          choose_claim-core app allow (clear_condition lib ws cond_storage_shrink_rejected)
            (read (c.list_user_claims ws.key.namespace app.key.name ws.spec.user_key) w))
