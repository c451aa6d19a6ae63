-- ===== src/Reconciler/Storage/Laws.antt =====
-- The storage invariants of a reconcile (internal/controller/workspace_controller.go, reconcilePVC).
use per_user_container_opera.Common.{
  ◌≡◌, refl, ap, inl, inr, Bool, true, false, Option, none, some, List, [], ◌∷◌, pos, ◌<ℤ◌, ltb_ℤ,
  leb_ℤ, eqb_ℤ, arith, Result, ok, err, is_already_exists, All, Bool-cases, Option-cases, if_cases,
}
use per_user_container_opera.Api.Workspace.{
  Workspace, Quantity, cond_ambiguous_volume, cond_storage_shrink_rejected,
}
use per_user_container_opera.Api.App.{PerUserApp}
use per_user_container_opera.Api.Objects.{Claim}
use per_user_container_opera.Cluster.{
  Client, World, read, send_create_claim, send_claim_patch, Request, create_claim, patch_claim,
  requests,
}
use per_user_container_opera.Reconciler.Storage.{
  Library, Outcome, set_condition, clear_condition, raise_largest_observed, with_claim, value_or,
  render_workspace_pvc, size_of, is_drifted, resized, is_shrink, after_resize, compare_sizes,
  observe_capacity, reconcile_existing_pvc, after_create, choose_claim, reconcile_pvc,
}

-- Whether a largest observed size is kept or raised.
abbrev pub is_grown : Option Quantity → Option Quantity → Bool
is_grown none b = true
is_grown (some a) none = false
is_grown (some a) (some b) = leb_ℤ a b

abbrev pub Grows : Workspace → Workspace → Type 0
Grows a b = is_grown a.status.largest_observed_size b.status.largest_observed_size ≡ true

pub Grows-refl : (a : Workspace) → Grows a a
Grows-refl a = elim (Option-cases a.status.largest_observed_size) [
  | inl e ↦ rw e refl
  | inr (s, e) ↦ rw e (ground arith)
]

is_grown_trans :
    (a b c : Option Quantity) → is_grown a b ≡ true → is_grown b c ≡ true → is_grown a c ≡ true
is_grown_trans none b c h k = refl
is_grown_trans (some a) none c h k = ground arith
is_grown_trans (some a) (some b) none h k = ground arith
is_grown_trans (some a) (some b) (some c) h k = ground arith

pub Grows-trans : (a b c : Workspace) → Grows a b → Grows b c → Grows a c
Grows-trans a b c =
    is_grown_trans a.status.largest_observed_size b.status.largest_observed_size
      c.status.largest_observed_size

raise-Grows : (size : Quantity) (ws : Workspace) → Grows ws (raise_largest_observed size ws)
unfolding raise_largest_observed
raise-Grows size ws = elim (Option-cases ws.status.largest_observed_size) [
  | inl e ↦ rw e refl
  | inr (s, e) ↦ elim (Bool-cases (ltb_ℤ s size)) [
    | inl t ↦ rw (e, t) (ground (arith, t))
    | inr t ↦ rw (e, t) (ground (arith, e))
  ]
]

-- The writes that storage takes for an app and a workspace: creating the rendered claim, and
-- raising the request of a bound claim to the size of the app, both only if this is no shrink.
pub data IsStorageWrite (app : PerUserApp) (ws : Workspace) : Request → Type 0 where
  creates :
      is_shrink app ws ≡ false → IsStorageWrite app ws (create_claim (render_workspace_pvc app ws))
  raises :
      (existing : Claim)
      → is_shrink app ws ≡ false
      → existing.bound ≡ true
      → size_of existing <ℤ app.spec.storage.size
      → IsStorageWrite app ws (patch_claim existing (resized existing app.spec.storage.size))

module _ (c : Client) (lib : Library) (app : PerUserApp) (base : Workspace) (P : Request → Type 0)
    (allows : (q : Request) → IsStorageWrite app base q → P q) where
  abbrev pub StorageSafe : {A : Type 0} → Workspace → Outcome c.Server A → Type 0
  StorageSafe ws r = Grows ws r.1 × All P (requests r.2.log)

  after_resize-Safe :
      (ws : Workspace) (size : Quantity) (r : Result Claim × World c.Server)
      → All P (requests r.1.log)
      → StorageSafe ws (after_resize c lib ws size r)
  unfolding after_resize clear_condition
  after_resize-Safe ws size (ok claim, w) h = (raise-Grows size ws, h)
  after_resize-Safe ws size (err e, w) h = (Grows-refl ws, h)

  patch-Safe :
      (existing : Claim) (size : Quantity) (w : World c.Server)
      → is_shrink app base ≡ false
      → existing.bound ≡ true
      → size ≡ app.spec.storage.size
      → ltb_ℤ (size_of existing) size ≡ true
      → All P (requests w.log)
      → All P (requests (send_claim_patch c existing (resized existing size) w).1.log)
  unfolding send_claim_patch
  patch-Safe existing size w n b e t h = (
    rw e (
        allows (patch_claim existing (resized existing app.spec.storage.size))
          (raises existing n b (ground (arith, e)))),
    h,
  )

  compare_sizes-Safe :
      (ws : Workspace) (existing desired : Claim) (w : World c.Server)
      → is_shrink app base ≡ false
      → desired.request ≡ some app.spec.storage.size
      → All P (requests w.log)
      → StorageSafe ws (compare_sizes c lib ws existing desired w)
  unfolding compare_sizes set_condition clear_condition
  compare_sizes-Safe ws existing desired w n e h =
      if_cases (StorageSafe ws) (ltb_ℤ (size_of existing) (size_of desired)) _ _
        (λ t.
          if_cases (StorageSafe ws) existing.bound _ (ok existing, ws, w)
            (λ b.
              after_resize-Safe ws (size_of desired)
                (send_claim_patch c existing (resized existing (size_of desired)) w)
                (patch-Safe existing (size_of desired) w n b (ap (value_or (pos 0)) e) t h))
            (λ b. (Grows-refl ws, h)))
        (λ t.
          if_cases (StorageSafe ws) (eqb_ℤ (size_of existing) (size_of desired)) _ _
            (λ q. (
              if_cases (Grows ws) (is_drifted existing desired) _ _ (λ d. Grows-refl ws)
                  (λ d. Grows-refl ws),
              h,
            ))
            (λ q. (Grows-refl ws, h)))

  observe_capacity-Safe :
      (ws : Workspace) (r : Outcome c.Server Claim)
      → StorageSafe ws r
      → StorageSafe ws (observe_capacity c lib r)
  unfolding observe_capacity
  observe_capacity-Safe ws (ok claim, v, w) h = (
    if_cases (Grows ws) claim.bound
        (raise_largest_observed (value_or (size_of claim) claim.capacity) v) v
        (λ b.
          Grows-trans ws v (raise_largest_observed (value_or (size_of claim) claim.capacity) v) h.0
            (raise-Grows (value_or (size_of claim) claim.capacity) v))
        (λ b. h.0),
    h.1,
  )
  observe_capacity-Safe ws (err e, v, w) h = h

  existing-Safe :
      (ws : Workspace) (existing : Claim) (w : World c.Server)
      → is_shrink app base ≡ false
      → All P (requests w.log)
      → StorageSafe ws (reconcile_existing_pvc c lib app existing ws w)
  unfolding reconcile_existing_pvc render_workspace_pvc
  existing-Safe ws existing w n h =
      observe_capacity-Safe ws
        (compare_sizes c lib (with_claim ws existing.key.name) existing
          (render_workspace_pvc app (with_claim ws existing.key.name)) w)
        (compare_sizes-Safe (with_claim ws existing.key.name) existing
          (render_workspace_pvc app (with_claim ws existing.key.name)) w n refl h)

  abbrev cleared : Workspace → Workspace
  cleared ws =
      clear_condition lib (clear_condition lib ws cond_storage_shrink_rejected)
        cond_ambiguous_volume

  abbrev creation : Workspace → World c.Server → Outcome c.Server Bool
  creation ws w =
      after_create c lib (render_workspace_pvc app (cleared ws)) (cleared ws)
        (send_create_claim c (render_workspace_pvc app (cleared ws)) w)

  after_create-Safe :
      (ws : Workspace) (desired : Claim) (r : Result Claim × World c.Server)
      → All P (requests r.1.log)
      → StorageSafe ws (after_create c lib desired ws r)
  unfolding after_create clear_condition
  after_create-Safe ws desired (ok claim, w) h =
      (raise-Grows (size_of claim) (with_claim ws claim.key.name), h)
  after_create-Safe ws desired (err e, w) h = elim (Bool-cases (is_already_exists e)) [
    | inl t ↦ rw t (raise-Grows (size_of desired) (with_claim ws desired.key.name), h)
    | inr t ↦ rw t (Grows-refl ws, h)
  ]

  create-Safe :
      (w : World c.Server)
      → is_shrink app base ≡ false
      → All P (requests w.log)
      → StorageSafe base (creation base w)
  unfolding send_create_claim clear_condition render_workspace_pvc
  create-Safe w n h =
      after_create-Safe (cleared base) (render_workspace_pvc app (cleared base))
        (send_create_claim c (render_workspace_pvc app (cleared base)) w)
        (allows (create_claim (render_workspace_pvc app base)) (creates n), h)

  choose_claim-Safe :
      (allow : Bool) (r : Result (List Claim) × World c.Server)
      → is_shrink app base ≡ false
      → All P (requests r.1.log)
      → StorageSafe base
          (choose_claim c lib app allow (clear_condition lib base cond_storage_shrink_rejected) r)
  unfolding choose_claim clear_condition set_condition send_create_claim render_workspace_pvc
  choose_claim-Safe allow (ok [], w) n h =
      if_cases (StorageSafe base) allow _ _ (λ t. create-Safe w n h) (λ t. (Grows-refl base, h))
  choose_claim-Safe allow (ok (existing ∷ []), w) n h = existing-Safe _ existing w n h
  choose_claim-Safe allow (ok (one ∷ two ∷ more), w) n h = (Grows-refl base, h)
  choose_claim-Safe allow (err e, w) n h = (Grows-refl base, h)

  -- For any property of writes that the storage's writes have.
  pub reconcile_pvc-Safe :
      (allow : Bool) (w : World c.Server)
      → All P (requests w.log)
      → StorageSafe base (reconcile_pvc c lib app allow base w)
  unfolding reconcile_pvc set_condition
  reconcile_pvc-Safe allow w h =
      if_cases (StorageSafe base) (is_shrink app base) _ _ (λ t. (Grows-refl base, h))
        (λ t.
          choose_claim-Safe allow
            (read (c.list_user_claims base.key.namespace app.key.name base.spec.user_key) w) t h)

-- Whatever the server answers and whether or not it fails, a pass over the storage keeps or raises
-- the largest observed size, and writes nothing but the rendered claim or a larger request for a
-- bound claim, and that only if the app's size is no shrink. So it deletes no claim.
pub reconcile_pvc-StorageSafe :
    (c : Client) (lib : Library) (app : PerUserApp) (allow : Bool) (ws : Workspace) (s : c.Server)
    → Grows ws (reconcile_pvc c lib app allow ws (record { server = s; log = [] })).1
      × All
          (IsStorageWrite app ws)
          (requests (reconcile_pvc c lib app allow ws (record { server = s; log = [] })).2.log)
reconcile_pvc-StorageSafe c lib app allow ws s =
    reconcile_pvc-Safe c lib app ws (IsStorageWrite app ws) (λ q h. h) allow
      (record { server = s; log = [] }) tt
