-- ===== src/Reclaimer/Deletion/Allowed.antt =====
-- What the Reclaimer may write (internal/controller/reclaimer.go).
use per_user_container_opera.Common.{
  ◌≡◌, ◌⊎◌, refl, if_cases, sym, ap, subst, inl, inr, true, false, some, List, [], map, Text,
  text_eq, is_not_found, Time, if◌then◌else◌, Result, ok, err, All, All-map-keep-members,
  All-push_all, keep, Bool-cases,
}
use per_user_container_opera.Api.Workspace.{Workspace, Key}
use per_user_container_opera.Api.App.{PerUserApp, ReclaimSpec}
use per_user_container_opera.Api.Objects.{Claim, zero_claim, Volume}
use per_user_container_opera.Cluster.{
  Client, World, M, ◌>>=◌, read, send, pure, Request, delete_workspace, patch_claim, delete_claim,
  patch_volume, requests, answer-cases,
}
use mathlib.Core.List.{Memᴰ}
use per_user_container_opera.Cluster.Listed.{IsListedApp, IsListing, IsListedClaim}
use per_user_container_opera.Reclaimer.Selection.Laws.{IsCandidate}
use per_user_container_opera.Cluster.Keeps.{
  Keeps, Keeps-bind, Keeps-send, Keeps-if, Ends, Ends-step, Ends-bind,
}
use per_user_container_opera.Reclaimer.Selection.{enabled_reclaim, victims}
use per_user_container_opera.Reclaimer.Deletion.{
  claim_key, is_stamped, stamped, destroyed, is_orphan, is_delete, gone_is_ok, delete_unless_gone,
  release_read, release_volume, mark_reclaiming, prepare_claim, delete_prepared, reclaim_workspace,
  reclaim_orphaned_claims,
}
use per_user_container_opera.Reclaimer.Deletion.Sweep.{deletion, reclaim_orphaned_claims-requests}

-- A workspace that a pass may delete, a pass that begins at a state of the server: the app is one
-- that the pass listed and has reclaiming enabled, the workspace is one that was listed for the app,
-- is live, is reclaimable at the time of the pass, and is among those that make up the overage.
pub record IsVictim (c : Client) (begin : c.Server) (now : Time) (app : PerUserApp)
    (spec : ReclaimSpec) (ws : Workspace) : Type 0 where
  pub app_listed : IsListedApp c begin app
  pub enabled : enabled_reclaim app ≡ some spec
  pub workspaces : List Workspace
  pub listing : IsListing c app workspaces
  pub candidate : IsCandidate app spec now workspaces ws
  pub chosen : Memᴰ ws (victims app spec now workspaces)

-- The claim of a workspace, as the server has answered it at some state.
abbrev pub IsFound : (c : Client) → PerUserApp → Workspace → Claim → Type 0
IsFound c app ws claim = (s : c.Server) × ((c.get_claim (claim_key app ws) s).0 ≡ ok claim)

-- The claim that the deletion of a workspace goes on with: the one that was found, or the zero claim.
abbrev pub IsOwn : (c : Client) → PerUserApp → Workspace → Claim → Type 0
IsOwn c app ws claim = IsFound c app ws claim ⊎ (claim ≡ zero_claim)

-- The writes of a pass at a time: turning to Delete the policy of the volume that the claim of a victim
-- names, if the app has its data deleted; stamping the claim of a victim that has no stamp; deleting a
-- victim; deleting its claim (or, if there was none, the zero claim); and deleting a claim that was
-- listed for an app with reclaiming enabled and is an orphan beside the workspaces listed for it.
pub data Allowed (c : Client) (begin : c.Server) (now : Time) : Request → Type 0 where
  destroys :
      (app : PerUserApp) (spec : ReclaimSpec) (ws : Workspace) (claim : Claim) (pv : Volume)
      → IsVictim c begin now app spec ws
      → IsFound c app ws claim
      → spec.delete_volume_data ≡ true
      → (s : c.Server) → (c.get_volume claim.volume_name s).0 ≡ ok pv
      → Allowed c begin now (patch_volume pv (destroyed pv))
  stamps :
      (app : PerUserApp) (spec : ReclaimSpec) (ws : Workspace) (claim : Claim) (at : Text)
      → IsVictim c begin now app spec ws
      → IsFound c app ws claim
      → is_stamped claim ≡ false
      → Allowed c begin now (patch_claim claim (stamped at claim))
  deletes :
      (app : PerUserApp) (spec : ReclaimSpec) (ws : Workspace)
      → IsVictim c begin now app spec ws
      → Allowed c begin now (delete_workspace ws.key)
  deletes_own :
      (app : PerUserApp) (spec : ReclaimSpec) (ws : Workspace) (claim : Claim)
      → IsVictim c begin now app spec ws
      → IsOwn c app ws claim
      → Allowed c begin now (delete_claim claim.key)
  deletes_orphan :
      (app : PerUserApp) (spec : ReclaimSpec) (workspaces : List Workspace) (claim : Claim)
      → IsListedApp c begin app
      → enabled_reclaim app ≡ some spec
      → IsListing c app workspaces
      → IsListedClaim c app claim
      → is_orphan app workspaces claim ≡ true
      → Allowed c begin now (delete_claim claim.key)

module _ (c : Client) (stamp : Key → Text) (begin : c.Server) (now : Time) where
  abbrev IsAllowed : Request → Type 0
  IsAllowed q = Allowed c begin now q

  abbrev AllAllowed : World c.Server → Type 0
  AllAllowed w = All IsAllowed (requests w.log)

  gone_is_ok-Allowed :
      (r : Result (Unit {0}) × World c.Server) → AllAllowed r.1 → AllAllowed (gone_is_ok c r).1
  gone_is_ok-Allowed (ok u, w) h = h
  gone_is_ok-Allowed (err e, w) h = h

  delete-Allowed : (q : Request) → IsAllowed q → Keeps IsAllowed (delete_unless_gone c q)
  unfolding delete_unless_gone
  delete-Allowed q p w h = gone_is_ok-Allowed (send c q w) (Keeps-send c IsAllowed q p w h)

  module _ (app : PerUserApp) (spec : ReclaimSpec) (ws : Workspace)
      (victim : IsVictim c begin now app spec ws) where
    release_volume-Allowed :
        (claim : Claim)
        → IsFound c app ws claim
        → spec.delete_volume_data ≡ true
        → Keeps IsAllowed (release_volume c claim)
    unfolding release_volume release_read
    release_volume-Allowed claim f d =
        Keeps-if IsAllowed (text_eq claim.volume_name []) (pure tt)
          (λ w. release_read c (read (c.get_volume claim.volume_name) w)) (λ w h. h) released
      where
        released : Keeps IsAllowed (λ w. release_read c (read (c.get_volume claim.volume_name) w))
        released w h = elim (answer-cases (c.get_volume claim.volume_name w.server)) [
          | inl (pv, s, e) ↦ rw e (
              if_cases (λ (r : Result (Unit {0}) × World c.Server). AllAllowed r.1)
                (is_delete pv.reclaim_policy) _ _ (λ t. h)
                (λ t.
                  Keeps-send c IsAllowed (patch_volume pv (destroyed pv))
                    (destroys app spec ws claim pv victim f d w.server (ap (λ r. r.0) e))
                    (record w { server = s }) h))
          | inr (x, s, e) ↦ rw e h
        ]

    mark_reclaiming-Allowed :
        (claim : Claim) → IsFound c app ws claim → Keeps IsAllowed (mark_reclaiming c stamp claim)
    unfolding mark_reclaiming
    mark_reclaiming-Allowed claim f w h =
        if_cases (λ (r : Result (Unit {0}) × World c.Server). AllAllowed r.1) (is_stamped claim)
          (ok tt, w) _ (λ t. h)
          (λ t.
            Keeps-send c IsAllowed (patch_claim claim (stamped (stamp claim.key) claim))
              (stamps app spec ws claim (stamp claim.key) victim f t) w h)

    release-Allowed :
        (claim : Claim)
        → IsFound c app ws claim
        → Keeps IsAllowed (if spec.delete_volume_data then release_volume c claim else pure tt)
    release-Allowed claim f =
        if_cases (λ (m : M c.Server (Unit {0})). Keeps IsAllowed m) spec.delete_volume_data
          (release_volume c claim) (pure tt) (λ d. release_volume-Allowed claim f d) (λ d w h. h)

    prepare_claim-Ends :
        (r : Result Claim × World c.Server)
        → Ends IsAllowed (IsFound c app ws) r
        → Ends IsAllowed (IsOwn c app ws) (prepare_claim c stamp spec r)
    unfolding prepare_claim
    prepare_claim-Ends (err e, w) h = elim (Bool-cases (is_not_found e)) [
      | inl t ↦ rw t (inr refl, h)
      | inr t ↦ rw t h
    ]
    prepare_claim-Ends (ok claim, w) h =
        Ends-bind IsAllowed (IsOwn c app ws)
          (if spec.delete_volume_data then release_volume c claim else pure tt)
          (λ _. mark_reclaiming c stamp claim >>= (λ _. pure claim)) (release-Allowed claim h.0)
          (λ _.
            Ends-bind IsAllowed (IsOwn c app ws) (mark_reclaiming c stamp claim) (λ _. pure claim)
              (mark_reclaiming-Allowed claim h.0) (λ _ v k. (inl h.0, k)))
          w h.1

    delete_prepared-Allowed :
        (claim : Claim) → IsOwn c app ws claim → Keeps IsAllowed (delete_prepared c app ws claim)
    unfolding delete_prepared
    delete_prepared-Allowed claim own =
        Keeps-bind IsAllowed (delete_unless_gone c (delete_workspace ws.key)) _
          (delete-Allowed (delete_workspace ws.key) (deletes app spec ws victim))
          (λ _.
            Keeps-bind IsAllowed (delete_unless_gone c (delete_claim claim.key)) _
              (delete-Allowed (delete_claim claim.key) (deletes_own app spec ws claim victim own))
              (λ _ w h. h))

    read-IsFound :
        (w : World c.Server)
        → AllAllowed w
        → Ends IsAllowed (IsFound c app ws) (read (c.get_claim (claim_key app ws)) w)
    read-IsFound w h = elim (answer-cases (c.get_claim (claim_key app ws) w.server)) [
      | inl (claim, s, e) ↦ rw e ((w.server, ap (λ r. r.0) e), h)
      | inr (d, s, e) ↦ rw e h
    ]

    pub reclaim_workspace-Allowed : Keeps IsAllowed (reclaim_workspace c stamp app spec ws)
    unfolding reclaim_workspace
    reclaim_workspace-Allowed w h =
        Ends-step IsAllowed (IsOwn c app ws) (delete_prepared c app ws) delete_prepared-Allowed
          (prepare_claim c stamp spec (read (c.get_claim (claim_key app ws)) w))
          (prepare_claim-Ends (read (c.get_claim (claim_key app ws)) w) (read-IsFound w h))

  pub reclaim_orphaned_claims-Allowed :
      (app : PerUserApp) (spec : ReclaimSpec) (workspaces : List Workspace)
      → IsListedApp c begin app
      → enabled_reclaim app ≡ some spec
      → IsListing c app workspaces
      → Keeps IsAllowed (reclaim_orphaned_claims c app workspaces)
  unfolding reclaim_orphaned_claims
  reclaim_orphaned_claims-Allowed app spec workspaces a on g w h =
      elim (answer-cases (c.list_claims app.key.namespace app.key.name w.server)) [
        | inl (l, s, e) ↦
            subst (All IsAllowed) (sym (reclaim_orphaned_claims-requests c app workspaces w l s e))
              (All-push_all IsAllowed (map deletion (keep (is_orphan app workspaces) l)) _
                (All-map-keep-members IsAllowed deletion (is_orphan app workspaces) l (λ claim m t.
                  deletes_orphan app spec workspaces claim a on g (w.server, s, l, e, m) t))
                h)
        | inr (d, s, e) ↦ rw (e, reclaim_orphaned_claims) h
      ]
