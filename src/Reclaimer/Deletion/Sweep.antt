-- ===== src/Reclaimer/Deletion/Sweep.antt =====
-- What the sweep of orphaned claims deletes (internal/controller/reclaimer.go, reclaimOrphanedPVCs).
use per_user_container_opera.Common.{
  ◌≡◌, refl, ◌∙◌, ap, Bool, true, false, Option, none, List, [], ◌∷◌, map, if◌then◌else◌, ok,
  ApiError, arith, keep, push_all,
}
use per_user_container_opera.Api.Workspace.{Workspace}
use per_user_container_opera.Api.App.{PerUserApp}
use per_user_container_opera.Api.Objects.{Claim}
use per_user_container_opera.Cluster.{Client, World, send, Request, delete_claim, requests}
use per_user_container_opera.Reclaimer.Deletion.{
  is_orphan, delete_unless_gone, sweep_claim, sweep_claims, reclaim_orphaned_claims,
}

abbrev pub deletion : Claim → Request
deletion claim = delete_claim claim.key

module _ (c : Client) (app : PerUserApp) (workspaces : List Workspace) where
  sweep_claim-requests :
      (claim : Claim) (s : Option ApiError × World c.Server)
      → requests (sweep_claim c app workspaces claim s).1.log ≡ (
          if is_orphan app workspaces claim
          then deletion claim ∷ requests s.1.log
          else requests s.1.log)
  unfolding sweep_claim delete_unless_gone send
  sweep_claim-requests claim (first, w) = ground arith

  sweep_claims-requests :
      (l : List Claim) (s : Option ApiError × World c.Server)
      → requests (sweep_claims c app workspaces l s).1.log
        ≡ push_all (map deletion (keep (is_orphan app workspaces) l)) (requests s.1.log)
  unfolding sweep_claims
  sweep_claims-requests [] s = refl
  sweep_claims-requests (claim ∷ l) s =
      sweep_claims-requests l (sweep_claim c app workspaces claim s)
      ∙ ap (push_all (map deletion (keep (is_orphan app workspaces) l)))
          (sweep_claim-requests claim s)
      ∙ split (is_orphan app workspaces claim)
    where
      split :
          (b : Bool)
          → push_all
              (map deletion (keep (is_orphan app workspaces) l))
              (if b then deletion claim ∷ requests s.1.log else requests s.1.log)
            ≡ push_all
                (map deletion (
                  if b
                  then claim ∷ keep (is_orphan app workspaces) l
                  else keep (is_orphan app workspaces) l))
                (requests s.1.log)
      split true = refl
      split false = refl

  -- If the claims of the app are listed, the sweep asks for the deletion of exactly those that are
  -- not being deleted, carry the stamp, and whose workspace is gone, each once and in order: a
  -- claim that was seeded before its workspace, which has no stamp, is never deleted.
  pub reclaim_orphaned_claims-requests :
      (w : World c.Server) (l : List Claim) (s : c.Server)
      → c.list_claims app.key.namespace app.key.name w.server ≡ (ok l, s)
      → requests (reclaim_orphaned_claims c app workspaces w).1.log
        ≡ push_all (map deletion (keep (is_orphan app workspaces) l)) (requests w.log)
  unfolding reclaim_orphaned_claims
  reclaim_orphaned_claims-requests w l s e =
      rw (e, reclaim_orphaned_claims) (sweep_claims-requests l (none, record w { server = s }))
