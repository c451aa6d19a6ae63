-- ===== src/Reconciler/Storage/Refusal.antt =====
-- When the storage keeps a reconcile from going on (internal/controller/workspace_controller.go,
-- reconcilePVC).
use per_user_container_opera.Common.{
  ◌≡◌, refl, inl, inr, Bool, true, false, some, List, [], ◌∷◌, ◌<ℤ◌, arith, Result, ok, err,
  Bool-cases, if_cases, length, ◌≤◌, ◌⊎◌, ◌↔◌, ◌≢◌,
}
use per_user_container_opera.Api.Workspace.{
  Workspace, Quantity, cond_ambiguous_volume, cond_storage_shrink_rejected,
}
use per_user_container_opera.Api.App.{PerUserApp}
use per_user_container_opera.Api.Objects.{Claim}
use per_user_container_opera.Cluster.{Client, World, send_create_claim}
use per_user_container_opera.Reconciler.Storage.{
  Library, Outcome, clear_condition, with_claim, render_workspace_pvc, is_shrink, compare_sizes,
  observe_capacity, reconcile_existing_pvc, after_create, choose_claim, reconcile_pvc,
}

-- A size below the largest observed one is refused before anything is read or written.
reconcile_pvc-shrink :
    (c : Client) (lib : Library) (app : PerUserApp) (allow : Bool) (ws : Workspace)
    (w : World c.Server) (largest : Quantity)
    → ws.status.largest_observed_size ≡ some largest
    → app.spec.storage.size <ℤ largest
    → ((reconcile_pvc c lib app allow ws w).0 ≡ ok true)
      × ((reconcile_pvc c lib app allow ws w).2 ≡ w)
unfolding reconcile_pvc
reconcile_pvc-shrink c lib app allow ws w largest e h =
    if_cases (λ (r : Outcome c.Server Bool). (r.0 ≡ ok true) × (r.2 ≡ w)) (is_shrink app ws) _ _
      (λ t. (refl, refl)) (λ t. absurd (ground (arith, e)))

module _ (c : Client) (lib : Library) (app : PerUserApp) where
  observe_capacity_goes_on : (r : Outcome c.Server Claim) → (observe_capacity c lib r).0 ≢ ok true
  unfolding observe_capacity
  observe_capacity_goes_on (ok claim, v, w) e = ground (arith, e)
  observe_capacity_goes_on (err x, v, w) e = ground (arith, e)

  after_create_goes_on :
      (desired : Claim) (ws : Workspace) (r : Result Claim × World c.Server)
      → (after_create c lib desired ws r).0 ≢ ok true
  unfolding after_create
  after_create_goes_on desired ws (ok claim, w) e = ground (arith, e)
  after_create_goes_on desired ws (err x, w) e = ground (arith, e)

  choose_claim_refuses :
      (allow : Bool) (ws : Workspace) (l : List Claim) (w : World c.Server)
      → ((choose_claim c lib app allow ws (ok l, w)).0 ≡ ok true) ↔ (2 ≤ length l)
  unfolding choose_claim reconcile_existing_pvc
  choose_claim_refuses true ws [] w =
      let clear = clear_condition lib ws cond_ambiguous_volume in
      let desired = render_workspace_pvc app clear in
      (
        λ e. absurd (after_create_goes_on desired clear (send_create_claim c desired w) e),
        λ h. absurd (omega arith),
      )
  choose_claim_refuses false ws [] w = (λ e. absurd (ground (arith, e)), λ h. absurd (omega arith))
  choose_claim_refuses allow ws (existing ∷ []) w =
      let named = with_claim (clear_condition lib ws cond_ambiguous_volume) existing.key.name in
      let compared = compare_sizes c lib named existing (render_workspace_pvc app named) w in
      (λ e. absurd (observe_capacity_goes_on compared e), λ h. absurd (omega arith))
  choose_claim_refuses allow ws (one ∷ two ∷ more) w = (λ e. omega arith, λ h. refl)

-- A pass over the storage refuses to go on exactly if the app's size is a shrink or more than one
-- claim is listed for the workspace, if the listing answers.
pub reconcile_pvc_refuses :
    (c : Client) (lib : Library) (app : PerUserApp) (allow : Bool) (ws : Workspace)
    (w : World c.Server) (l : List Claim) (s : c.Server)
    → c.list_user_claims ws.key.namespace app.key.name ws.spec.user_key w.server ≡ (ok l, s)
    → ((reconcile_pvc c lib app allow ws w).0 ≡ ok true)
      ↔ ((is_shrink app ws ≡ true) ⊎ (2 ≤ length l))
unfolding reconcile_pvc
reconcile_pvc_refuses c lib app allow ws w l s e = elim (Bool-cases (is_shrink app ws)) [
  | inl t ↦ rw t (λ _. inl refl, λ _. refl)
  | inr t ↦ rw (t, e) (listed t)
]
  where
    listed :
        is_shrink app ws ≡ false
        → ((choose_claim c lib app allow
              (clear_condition lib ws cond_storage_shrink_rejected)
              (ok l, record w { server = s })).0
            ≡ ok true)
          ↔ ((false ≡ true) ⊎ (2 ≤ length l))
    listed t =
        let h =
          choose_claim_refuses c lib app allow (clear_condition lib ws cond_storage_shrink_rejected)
            l (record w { server = s }) in
        (λ r. inr (h.0 r), λ r. h.1 (ground (arith, r)))
