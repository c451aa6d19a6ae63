-- ===== src/Reconciler/Storage.antt =====
-- internal/controller/workspace_controller.go: `reconcilePVC` and what it calls, with
-- `RenderWorkspacePVC` of render.go. The reconciled workspace is passed along, as the code changes it
-- in place and keeps it when a call fails.
pub mod Laws
pub mod Refusal
pub mod Kept
use per_user_container_opera.Common.{
  ℕ, Bool, true, false, not, ◌&&◌, ◌||◌, Option, none, some, List, [], ◌∷◌, ◌++◌, map, Text, codes,
  text_eq, ℤ, pos, ltb_ℤ, eqb_ℤ, if◌then◌else◌, Result, ok, err, is_already_exists, map_get, length,
}
use per_user_container_opera.Api.Workspace.{
  Workspace, WorkspaceStatus, Quantity, Condition, condition_true, label_app, label_user_key,
  ann_user_display, cond_storage_spec_drift, cond_storage_shrink_rejected, cond_ambiguous_volume,
}
use per_user_container_opera.Api.App.{PerUserApp}
use per_user_container_opera.Api.Objects.{Claim, zero_claim}
use per_user_container_opera.Cluster.{Client, World, read, send_create_claim, send_claim_patch}
use per_user_container_opera.Reclaimer.Deletion.{claim_key}

-- The code that the reconcile takes from libraries: `meta.SetStatusCondition`,
-- `meta.RemoveStatusCondition`, `meta.FindStatusCondition`, `Semantic.DeepEqual` on statuses, and the
-- printing of quantities and of counts.
pub record Library : Type 0 where
  pub set_status_condition : List Condition → Condition → List Condition
  pub remove_status_condition : List Condition → Text → List Condition
  pub find_status_condition : List Condition → Text → Option Condition
  pub same_status : WorkspaceStatus → WorkspaceStatus → Bool
  pub quantity_text : Quantity → Text
  pub decimal : ℕ → Text

-- A call of the reconcile: its outcome, the workspace as it left it, and the world.
abbrev pub Outcome : Type 0 → Type 0 → Type 0
Outcome S A = Result A × Workspace × World S

abbrev pub with_status : Workspace → WorkspaceStatus → Workspace
with_status ws status = record ws { status = status }

unfoldable pub set_condition : Library → Workspace → Text → Text → Text → Workspace
set_condition lib ws type reason message = record ws {
  status = record (ws.status) {
    conditions = lib.set_status_condition ws.status.conditions (record {
      type = type;
      status = condition_true;
      reason = reason;
      message = message;
      observed_generation = ws.generation;
    });
  };
}

unfoldable pub clear_condition : Library → Workspace → Text → Workspace
clear_condition lib ws type = record ws {
  status = record (ws.status) {
    conditions = lib.remove_status_condition ws.status.conditions type;
  };
}

-- `raiseLargestObserved`.
unfoldable pub raise_largest_observed : Quantity → Workspace → Workspace
raise_largest_observed candidate ws = elim ws.status.largest_observed_size [
  | none ↦ raised
  | some largest ↦ if ltb_ℤ largest candidate then raised else ws
]
  where
    raised : Workspace
    raised = record ws { status = record (ws.status) { largest_observed_size = some candidate } }

abbrev pub with_claim : Workspace → Text → Workspace
with_claim ws name = record ws { status = record (ws.status) { pvc_ref = name } }

abbrev pub value_or : {A : Type 0} → A → Option A → A
value_or a none = a
value_or a (some b) = b

unfoldable pub render_workspace_pvc : PerUserApp → Workspace → Claim
render_workspace_pvc app ws = record zero_claim {
  key = claim_key app ws;
  labels = (label_app, app.key.name) ∷ (label_user_key, ws.spec.user_key) ∷ [];
  annotations =
      (codes "argocd.argoproj.io/sync-options", codes "Prune=false")
      ∷ (codes "helm.sh/resource-policy", codes "keep")
      ∷ (ann_user_display, value_or [] (map_get ann_user_display ws.annotations))
      ∷ [];
  storage_class_name = some app.spec.storage.storage_class_name;
  access_modes = codes "ReadWriteOncePod" ∷ [];
  request = some app.spec.storage.size;
}

-- The request of a claim, a missing one being the zero quantity.
abbrev pub size_of : Claim → Quantity
size_of claim = value_or (pos 0) claim.request

abbrev pub texts_eq : List Text → List Text → Bool
texts_eq [] [] = true
texts_eq (a ∷ l) (b ∷ m) = text_eq a b && texts_eq l m
texts_eq _ _ = false

-- `classMismatch || accessMismatch`.
abbrev pub is_drifted : Claim → Claim → Bool
is_drifted existing desired =
    not (text_eq (value_or [] existing.storage_class_name) (value_or [] desired.storage_class_name))
    || not (texts_eq existing.access_modes desired.access_modes)

-- A claim with its request raised.
abbrev pub resized : Claim → Quantity → Claim
resized claim size = record claim { request = some size }

-- `desiredSize.Cmp(*largest) < 0`.
abbrev pub is_shrink : PerUserApp → Workspace → Bool
is_shrink app ws = elim ws.status.largest_observed_size [
  | none ↦ false
  | some largest ↦ ltb_ℤ app.spec.storage.size largest
]

module _ (c : Client) (lib : Library) where
  abbrev flag_drift : Workspace → Text → Workspace
  flag_drift ws message =
      set_condition lib ws cond_storage_spec_drift (codes "SpecMismatch") message

  -- After the claim has been patched to a larger request.
  after_resize : Workspace → Quantity → Result Claim × World c.Server → Outcome c.Server Claim
  after_resize ws size (ok claim, w) =
      (ok claim, clear_condition lib (raise_largest_observed size ws) cond_storage_spec_drift, w)
  after_resize ws size (err e, w) = (err e, ws, w)

  -- The `switch` on the sizes: the claim as the later test of its phase sees it.
  compare_sizes : Workspace → Claim → Claim → World c.Server → Outcome c.Server Claim
  unfolding after_resize
  compare_sizes ws existing desired w =
      if ltb_ℤ (size_of existing) (size_of desired)
      then if existing.bound
        then after_resize ws (size_of desired)
            (send_claim_patch c existing (resized existing (size_of desired)) w)
        else (ok existing, ws, w)
      else if eqb_ℤ (size_of existing) (size_of desired)
      then (
        ok existing,
        (if is_drifted existing desired
            then flag_drift ws (
                codes
                  "existing PersistentVolumeClaim's immutable fields no longer match this PerUserApp's storage spec")
            else clear_condition lib ws cond_storage_spec_drift),
        w,
      )
      else (
        ok existing,
        flag_drift ws (
            codes
              "existing PersistentVolumeClaim requests more storage than this PerUserApp currently declares"),
        w,
      )

  -- The capacity of a bound claim is the last thing looked at.
  observe_capacity : Outcome c.Server Claim → Outcome c.Server Bool
  observe_capacity (ok claim, ws, w) = (
    ok false,
    (if claim.bound
        then raise_largest_observed (value_or (size_of claim) claim.capacity) ws
        else ws),
    w,
  )
  observe_capacity (err e, ws, w) = (err e, ws, w)

  unfoldable pub reconcile_existing_pvc :
      PerUserApp → Claim → Workspace → World c.Server → Outcome c.Server Bool
  unfolding compare_sizes observe_capacity
  reconcile_existing_pvc app existing ws w =
      let named = with_claim ws existing.key.name in
      observe_capacity (compare_sizes named existing (render_workspace_pvc app named) w)

  -- What follows a claim that is created or exists already.
  abbrev adopt : Claim → Workspace → Workspace
  adopt claim ws =
      clear_condition lib (raise_largest_observed (size_of claim) (with_claim ws claim.key.name))
        cond_storage_spec_drift

  after_create : Claim → Workspace → Result Claim × World c.Server → Outcome c.Server Bool
  after_create desired ws (ok claim, w) = (ok false, adopt claim ws, w)
  after_create desired ws (err e, w) =
      if is_already_exists e then (ok false, adopt desired ws, w) else (err e, ws, w)

  abbrev ambiguous_message : PerUserApp → Workspace → ℕ → Text
  ambiguous_message app ws count =
      lib.decimal count
      ++ codes " PersistentVolumeClaims match app="
      ++ app.key.name
      ++ codes " user-key="
      ++ ws.spec.user_key
      ++ codes "; refusing to choose one for this workspace"

  -- The `switch` on the number of claims.
  choose_claim :
      PerUserApp → Bool → Workspace → Result (List Claim) × World c.Server → Outcome c.Server Bool
  unfolding after_create
  choose_claim app allow_create ws (ok [], w) =
      let clear = clear_condition lib ws cond_ambiguous_volume in
      if allow_create
      then after_create (render_workspace_pvc app clear) clear
          (send_create_claim c (render_workspace_pvc app clear) w)
      else (ok false, clear, w)
  choose_claim app allow_create ws (ok (existing ∷ []), w) =
      reconcile_existing_pvc app existing (clear_condition lib ws cond_ambiguous_volume) w
  choose_claim app allow_create ws (ok (one ∷ two ∷ more), w) = (
    ok true,
    set_condition lib ws cond_ambiguous_volume (codes "MultipleClaims")
        (ambiguous_message app ws (length (one ∷ two ∷ more))),
    w,
  )
  choose_claim app allow_create ws (err e, w) = (err e, ws, w)

  abbrev shrink_message : PerUserApp → Workspace → Text
  shrink_message app ws =
      codes "spec.storage.size="
      ++ lib.quantity_text app.spec.storage.size
      ++ codes " is below the largest size this workspace's volume has ever held ("
      ++ lib.quantity_text (value_or (pos 0) ws.status.largest_observed_size)
      ++ codes "); refusing rather than stranding the bound volume"

  -- `reconcilePVC`, whose answer is whether the caller must not go on.
  unfoldable pub reconcile_pvc :
      PerUserApp → Bool → Workspace → World c.Server → Outcome c.Server Bool
  unfolding choose_claim
  reconcile_pvc app allow_create ws w =
      if is_shrink app ws
      then (
        ok true,
        set_condition lib ws cond_storage_shrink_rejected (codes "ShrinkRejected")
            (shrink_message app ws),
        w,
      )
      else choose_claim app allow_create (clear_condition lib ws cond_storage_shrink_rejected)
          (read (c.list_user_claims ws.key.namespace app.key.name ws.spec.user_key) w)
