-- ===== src/Reclaimer/Deletion.antt =====
-- internal/controller/reclaimer.go: deleting a workspace with its claim, and the sweep of claims
-- that an interrupted deletion left. `stamp k` is the text of the clock (`time.RFC3339`) when the
-- claim `k` is stamped; the texts of wrapped errors are left out.
pub mod Allowed
pub mod Order
pub mod Sweep
use per_user_container_opera.Common.{
  ◌≡◌, refl, Bool, true, false, not, ◌&&◌, Option, none, some, List, [], ◌∷◌, Text, text_eq,
  is_some, if◌then◌else◌, any, Result, ok, err, ApiError, is_not_found, map_get, map_set,
}
use per_user_container_opera.Api.Workspace.{Workspace, Key, ann_reclaiming, reap_lru}
use per_user_container_opera.Api.App.{PerUserApp, ReclaimSpec}
use per_user_container_opera.Api.Objects.{Claim, zero_claim, Volume, ReclaimPolicy, delete}
use per_user_container_opera.Cluster.{
  Client, World, M, ◌>>=◌, ◌>>◌, then_step, pure, fail, read, emit, send, Request, delete_workspace,
  patch_claim, delete_claim, patch_volume, workspace_reaped,
}
use per_user_container_opera.Identity.UserKey.{child_name}
use per_user_container_opera.Reaper.Pass.{first_error, as_result}

-- `childName`, with the namespace of the workspace.
abbrev pub claim_key : PerUserApp → Workspace → Key
claim_key app ws = record {
  namespace = ws.key.namespace;
  name = child_name app.key.name ws.spec.user_key;
}

-- Whether a claim carries `AnnReclaiming`.
abbrev pub is_stamped : Claim → Bool
is_stamped claim = is_some (map_get ann_reclaiming claim.annotations)

abbrev pub stamped : Text → Claim → Claim
stamped at claim = record claim { annotations = map_set ann_reclaiming at claim.annotations }

abbrev pub destroyed : Volume → Volume
destroyed pv = record pv { reclaim_policy = delete }

abbrev pub is_delete : ReclaimPolicy → Bool
is_delete delete = true
is_delete _ = false

-- `liveNames`, and the three tests of the sweep.
abbrev pub live_name : PerUserApp → List Workspace → Text → Bool
live_name app workspaces name =
    any (λ ws. text_eq (child_name app.key.name ws.spec.user_key) name) workspaces

abbrev pub is_orphan : PerUserApp → List Workspace → Claim → Bool
is_orphan app workspaces claim =
    not (is_some claim.deletion_timestamp)
    && is_stamped claim
    && not (live_name app workspaces claim.key.name)

module _ (c : Client) where
  -- A delete that takes "not found" for success.
  abbrev gone_is_ok : Result (Unit {0}) × World c.Server → Result (Unit {0}) × World c.Server
  gone_is_ok (ok u, w) = (ok u, w)
  gone_is_ok (err e, w) = (if is_not_found e then ok tt else err e, w)

  delete_unless_gone : Request → M c.Server (Unit {0})
  delete_unless_gone q w = gone_is_ok (send c q w)

  -- `releaseVolume` after the volume has been read.
  release_read : Result Volume × World c.Server → Result (Unit {0}) × World c.Server
  release_read (ok pv, w) =
      if is_delete pv.reclaim_policy then (ok tt, w) else send c (patch_volume pv (destroyed pv)) w
  release_read (err e, w) = (if is_not_found e then ok tt else err e, w)

  release_volume : Claim → M c.Server (Unit {0})
  unfolding release_read
  release_volume claim w =
      if text_eq claim.volume_name []
      then (ok tt, w)
      else release_read (read (c.get_volume claim.volume_name) w)

  abbrev keep_error :
      Option ApiError → Result (Unit {0}) × World c.Server → Option ApiError × World c.Server
  keep_error first (ok u, w) = (first, w)
  keep_error first (err e, w) = (first_error first e, w)

  -- One round of the sweep.
  sweep_claim :
      PerUserApp
      → List Workspace
      → Claim
      → Option ApiError × World c.Server
      → Option ApiError × World c.Server
  unfolding delete_unless_gone
  sweep_claim app workspaces claim (first, w) =
      if is_orphan app workspaces claim
      then keep_error first (delete_unless_gone (delete_claim claim.key) w)
      else (first, w)

  sweep_claims :
      PerUserApp
      → List Workspace
      → List Claim
      → Option ApiError × World c.Server
      → Option ApiError × World c.Server
  unfolding sweep_claim
  sweep_claims app workspaces [] s = s
  sweep_claims app workspaces (claim ∷ rest) s =
      sweep_claims app workspaces rest (sweep_claim app workspaces claim s)

  unfoldable pub reclaim_orphaned_claims : PerUserApp → List Workspace → M c.Server (Unit {0})
  unfolding sweep_claims
  reclaim_orphaned_claims app workspaces = do
    claims ← read (c.list_claims app.key.namespace app.key.name)
    λ w. let (first, w') = sweep_claims app workspaces claims (none, w) in (as_result first, w')

  -- Steps 3 and 4 of `reclaimWorkspace`, and the metric.
  delete_prepared : PerUserApp → Workspace → Claim → M c.Server (Unit {0})
  unfolding delete_unless_gone
  delete_prepared app ws claim = do
    delete_unless_gone (delete_workspace ws.key)
    delete_unless_gone (delete_claim claim.key)
    emit (workspace_reaped ws.key.namespace app.key.name reap_lru)

module _ (c : Client) (stamp : Key → Text) where
  mark_reclaiming : Claim → M c.Server (Unit {0})
  mark_reclaiming claim w =
      if is_stamped claim
      then (ok tt, w)
      else send c (patch_claim claim (stamped (stamp claim.key) claim)) w

  -- The `switch` on the outcome of reading the claim: `pvc` as the later steps see it.
  prepare_claim : ReclaimSpec → Result Claim × World c.Server → Result Claim × World c.Server
  unfolding release_volume mark_reclaiming
  prepare_claim spec (err e, w) = if is_not_found e then (ok zero_claim, w) else (err e, w)
  prepare_claim spec (ok claim, w) =
      (do
        if spec.delete_volume_data then release_volume c claim else pure tt
        mark_reclaiming claim
        pure claim)
        w

  unfoldable pub reclaim_workspace : PerUserApp → ReclaimSpec → Workspace → M c.Server (Unit {0})
  unfolding prepare_claim delete_prepared
  reclaim_workspace app spec ws = do
    claim ← λ w. prepare_claim spec (read (c.get_claim (claim_key app ws)) w)
    delete_prepared c app ws claim
