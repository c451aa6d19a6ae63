-- ===== src/Reclaimer/Deletion/Order.antt =====
-- The order of the writes of one deletion (internal/controller/reclaimer.go, reclaimWorkspace), and
-- so what a crash between two of them can leave.
use per_user_container_opera.Common.{
  ◌≡◌, refl, ◌⊎◌, inl, inr, Bool, true, false, Option, none, some, List, [], ◌∷◌, Text, text_eq,
  text_eq_iff, if_cases, if◌then◌else◌, Result, ok, err, ApiError, is_not_found, Bool-cases,
}
use mathlib.Core.List.{Memᴰ}
use per_user_container_opera.Api.Workspace.{Workspace, Key, reap_lru}
use per_user_container_opera.Api.App.{PerUserApp, ReclaimSpec}
use per_user_container_opera.Api.Objects.{Claim, Volume}
use per_user_container_opera.Cluster.{
  Client, World, ◌>>=◌, pure, then_step, delete_workspace, patch_claim, delete_claim, patch_volume,
  emit, workspace_reaped, Event, sent, send-cases,
}
use per_user_container_opera.Reclaimer.Deletion.{
  claim_key, is_stamped, stamped, destroyed, is_delete, delete_unless_gone, release_read,
  release_volume, mark_reclaiming, delete_prepared, prepare_claim, reclaim_workspace,
}

-- A delete that the server answered with success or "not found".
abbrev pub succeeded : Option ApiError → Bool
succeeded none = true
succeeded (some e) = is_not_found e

-- One deletion, of a workspace whose claim was read, with the state of the server after that read.
module _ (c : Client) (stamp : Key → Text) (spec : ReclaimSpec) (ws : Workspace) (claim : Claim)
    (t : c.Server) where
  -- The delete of this workspace has gone through.
  abbrev pub IsGone : List Event → Type 0
  IsGone l =
      (o : Option ApiError) × (succeeded o ≡ true) × Memᴰ (sent (delete_workspace ws.key) o) l

  -- This claim carries the annotation: it did when it was read, or the patch that adds it to what was
  -- read has gone through.
  abbrev pub IsMarked : List Event → Type 0
  IsMarked l =
      (is_stamped claim ≡ true)
      ⊎ Memᴰ (sent (patch_claim claim (stamped (stamp claim.key) claim)) none) l

  -- The volume of this claim is released as the app asks for: its data are to be kept, or there is no
  -- volume, or the volume has the policy Delete, since it was read so or since the patch to it has
  -- gone through. A volume that could not be read is none of these.
  pub data IsReleased (l : List Event) : Type 0 where
    kept : spec.delete_volume_data ≡ false → IsReleased l
    unbound : claim.volume_name ≡ [] → IsReleased l
    missing :
        (e : ApiError) (u : c.Server)
        → c.get_volume claim.volume_name t ≡ (err e, u)
        → is_not_found e ≡ true
        → IsReleased l
    already :
        (pv : Volume) (u : c.Server)
        → c.get_volume claim.volume_name t ≡ (ok pv, u)
        → is_delete pv.reclaim_policy ≡ true
        → IsReleased l
    patched :
        (pv : Volume) (u : c.Server)
        → c.get_volume claim.volume_name t ≡ (ok pv, u)
        → Memᴰ (sent (patch_volume pv (destroyed pv)) none) l
        → IsReleased l

  -- A log, newest entry first, in which every delete of a claim is that of this claim, after the
  -- delete of this workspace has gone through, and every delete of a workspace is that of this
  -- workspace, after the claim is marked and its volume released.
  abbrev pub InOrder : List Event → Type 0
  InOrder [] = Unit {0}
  InOrder (sent (delete_claim k) o ∷ l) = (k ≡ claim.key) × IsGone l × InOrder l
  InOrder (sent (delete_workspace k) o ∷ l) = (k ≡ ws.key) × IsMarked l × IsReleased l × InOrder l
  InOrder (e ∷ l) = InOrder l

  IsReleased-cons : (e : Event) (l : List Event) → IsReleased l → IsReleased (e ∷ l)
  IsReleased-cons e l (kept h) = kept h
  IsReleased-cons e l (unbound h) = unbound h
  IsReleased-cons e l (missing x u g n) = missing x u g n
  IsReleased-cons e l (already pv u g d) = already pv u g d
  IsReleased-cons e l (patched pv u g m) = patched pv u g (Memᴰ.tail m)

  -- What holds after the volume has been released, and after the claim has been prepared.
  abbrev AfterRelease : Result (Unit {0}) × World c.Server → Type 0
  AfterRelease (ok u, w) = IsReleased w.log × InOrder w.log
  AfterRelease (err e, w) = InOrder w.log

  abbrev IsReady : Result Claim × World c.Server → Type 0
  IsReady (ok k, w) = (k ≡ claim) × IsMarked w.log × IsReleased w.log × InOrder w.log
  IsReady (err e, w) = InOrder w.log

  abbrev begin : World c.Server
  begin = record { server = t; log = [] }

  release_read-AfterRelease :
      (r : Result Volume × c.Server)
      → c.get_volume claim.volume_name t ≡ r
      → AfterRelease (release_read c (r.0, record { server = r.1; log = [] }))
  unfolding release_read
  release_read-AfterRelease (err e, u) g = elim (Bool-cases (is_not_found e)) [
    | inl n ↦ rw n (missing e u g n, tt)
    | inr n ↦ rw n tt
  ]
  release_read-AfterRelease (ok pv, u) g = elim (Bool-cases (is_delete pv.reclaim_policy)) [
    | inl d ↦ rw d (already pv u g d, tt)
    | inr d ↦
        rw d
          (elim (send-cases c (patch_volume pv (destroyed pv)) (record { server = u; log = [] })) [
            | inl (s, e) ↦ rw e (patched pv u g (Memᴰ.head refl), tt)
            | inr (x, s, e) ↦ rw e tt
          ])
  ]

  release_volume-AfterRelease : AfterRelease (release_volume c claim begin)
  unfolding release_volume
  release_volume-AfterRelease =
      if_cases AfterRelease (text_eq claim.volume_name []) _ _
        (λ e. (unbound ((text_eq_iff claim.volume_name []).0 e), tt))
        (λ e. release_read-AfterRelease (c.get_volume claim.volume_name t) refl)

  released-IsReady :
      (r : Result (Unit {0}) × World c.Server)
      → AfterRelease r
      → IsReady (then_step (λ _. mark_reclaiming c stamp claim >>= (λ _. pure claim)) r)
  unfolding mark_reclaiming
  released-IsReady (err e, w) h = h
  released-IsReady (ok u, w) h = elim (Bool-cases (is_stamped claim)) [
    | inl e ↦ rw e (refl, inl e, h.0, h.1)
    | inr n ↦ rw n (elim (send-cases c (patch_claim claim (stamped (stamp claim.key) claim)) w) [
      | inl (s, e) ↦ rw e (refl, inr (Memᴰ.head refl), IsReleased-cons _ w.log h.0, h.1)
      | inr (x, s, e) ↦ rw e h.1
    ])
  ]

  released-AfterRelease :
      AfterRelease ((if spec.delete_volume_data then release_volume c claim else pure tt) begin)
  released-AfterRelease =
      if_cases (λ (m : World c.Server → Result (Unit {0}) × World c.Server). AfterRelease (m begin))
        spec.delete_volume_data (release_volume c claim) (pure tt)
        (λ e. release_volume-AfterRelease) (λ e. (kept e, tt))

  prepare_claim-IsReady : IsReady (prepare_claim c stamp spec (ok claim, begin))
  unfolding prepare_claim
  prepare_claim-IsReady =
      released-IsReady ((if spec.delete_volume_data then release_volume c claim else pure tt) begin)
        released-AfterRelease

  delete_claim-InOrder :
      (w : World c.Server)
      → IsGone w.log
      → InOrder w.log
      → InOrder (delete_unless_gone c (delete_claim claim.key) w).1.log
  unfolding delete_unless_gone
  delete_claim-InOrder w g h = elim (send-cases c (delete_claim claim.key) w) [
    | inl (s, e) ↦ rw e (refl, g, h)
    | inr (x, s, e) ↦ rw e (refl, g, h)
  ]

  deleted-InOrder :
      (app : PerUserApp) (r : Result (Unit {0}) × World c.Server)
      → InOrder r.1.log
      → InOrder
          (then_step (λ _. emit (workspace_reaped ws.key.namespace app.key.name reap_lru)) r).1.log
  deleted-InOrder app (ok u, w) h = h
  deleted-InOrder app (err e, w) h = h

  delete_prepared-InOrder :
      (app : PerUserApp) (r : Result Claim × World c.Server)
      → IsReady r
      → InOrder (then_step (delete_prepared c app ws) r).1.log
  unfolding delete_prepared delete_unless_gone
  delete_prepared-InOrder app (err e, w) h = h
  delete_prepared-InOrder app (ok k, w) h =
      rw h.0 (elim (send-cases c (delete_workspace ws.key) w) [
        | inl (s, e) ↦ rw e (gone none refl s)
        | inr (x, s, e) ↦ elim (Bool-cases (is_not_found x)) [
          | inl n ↦ rw (e, n) (gone (some x) n s)
          | inr n ↦ rw (e, n) (refl, h.1, h.2, h.3)
        ]
      ])
    where
      after : Option ApiError → c.Server → World c.Server
      after o s = record { server = s; log = sent (delete_workspace ws.key) o ∷ w.log }

      gone :
          (o : Option ApiError)
          → succeeded o ≡ true
          → (s : c.Server)
          → InOrder
              (then_step
                (λ _. emit (workspace_reaped ws.key.namespace app.key.name reap_lru))
                (delete_unless_gone c (delete_claim claim.key) (after o s))).1.log
      gone o n s =
          deleted-InOrder app (delete_unless_gone c (delete_claim claim.key) (after o s))
            (delete_claim-InOrder (after o s) (o, n, Memᴰ.head refl) (refl, h.1, h.2, h.3))

-- From an empty log, if the claim of the workspace can be read, then whatever the server answers to
-- the rest, and at every point of the log: a claim is asked to be deleted only if it is the one that
-- was read, and after the delete of the workspace went through; and a workspace only if it is the one
-- that is reclaimed, after the claim carries the stamp and, if the app's data are to be deleted, after
-- its volume was found gone or with the policy Delete, or was patched to have it.
pub reclaim_workspace-InOrder :
    (c : Client) (stamp : Key → Text) (app : PerUserApp) (spec : ReclaimSpec) (ws : Workspace)
    (s t : c.Server) (claim : Claim)
    → c.get_claim (claim_key app ws) s ≡ (ok claim, t)
    → InOrder c stamp spec ws claim t
        (reclaim_workspace c stamp app spec ws (record { server = s; log = [] })).1.log
unfolding reclaim_workspace
reclaim_workspace-InOrder c stamp app spec ws s t claim e =
    rw (e, reclaim_workspace)
      (delete_prepared-InOrder c stamp spec ws claim t app
        (prepare_claim c stamp spec (ok claim, record { server = t; log = [] }))
        (prepare_claim-IsReady c stamp spec ws claim t))
