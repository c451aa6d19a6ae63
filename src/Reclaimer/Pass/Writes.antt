-- ===== src/Reclaimer/Pass/Writes.antt =====
-- What a reclaim pass writes (internal/controller/reclaimer.go, reclaimApp and Reclaim).
use per_user_container_opera.Common.{
  ◌≡◌, refl, ◌∙◌, inl, inr, Option, none, some, List, [], ◌∷◌, Text, Time, Result, ok, err,
  ApiError, All, All-members, All-Memᴰ, Bool-cases, Option-cases,
}
use per_user_container_opera.Api.Workspace.{Workspace, Key}
use per_user_container_opera.Api.App.{PerUserApp, ReclaimSpec}
use per_user_container_opera.Cluster.{Client, World, M, ◌>>◌, read, requests, answer-cases}
use per_user_container_opera.Cluster.Keeps.{Keeps, Keeps-bind, Ends-step}
use per_user_container_opera.Cluster.Delivers.{Delivers-read}
use per_user_container_opera.Cluster.Listed.{IsListedApp, IsListing}
use per_user_container_opera.Reaper.Pass.{Passes, is_early}
use per_user_container_opera.Reclaimer.Selection.{enabled_reclaim, victims}
use per_user_container_opera.Reclaimer.Selection.Laws.{IsCandidate, victims-IsCandidate}
use per_user_container_opera.Reclaimer.Deletion.{reclaim_workspace, reclaim_orphaned_claims}
use per_user_container_opera.Reclaimer.Deletion.Allowed.{
  Allowed, IsVictim, reclaim_workspace-Allowed, reclaim_orphaned_claims-Allowed,
}
use per_user_container_opera.Reclaimer.Pass.{
  collect, reclaim_each, reclaim_victims, reclaim_app, advance, reclaim_one, reclaim_apps, finish,
  reclaim_listed, reclaim,
}

module _ (c : Client) (stamp : Key → Text) (begin : c.Server) (now : Time) where
  collect-log :
      (first : Option ApiError) (r : Result (Unit {0}) × World c.Server)
      → (collect c stamp first r).1 ≡ r.1
  collect-log first (ok u, w) = refl
  collect-log first (err e, w) = refl

  reclaim_each-Allowed :
      (app : PerUserApp) (spec : ReclaimSpec) (l : List Workspace)
      → All (IsVictim c begin now app spec) l
      → (s : Option ApiError × World c.Server) → All (Allowed c begin now) (requests s.1.log)
      → All (Allowed c begin now) (requests (reclaim_each c stamp app spec l s).1.log)
  unfolding reclaim_each
  reclaim_each-Allowed app spec [] a s h = h
  reclaim_each-Allowed app spec (ws ∷ l) a (first, w) h =
      reclaim_each-Allowed app spec l a.1
        (collect c stamp first (reclaim_workspace c stamp app spec ws w))
        (rw (collect-log first (reclaim_workspace c stamp app spec ws w))
          (reclaim_workspace-Allowed c stamp begin now app spec ws a.0 w h))

  reclaim_app-Allowed :
      (app : PerUserApp) (spec : ReclaimSpec)
      → IsListedApp c begin app
      → enabled_reclaim app ≡ some spec
      → Keeps (Allowed c begin now) (reclaim_app c stamp app spec now)
  unfolding reclaim_app
  reclaim_app-Allowed app spec listed on w h =
      Ends-step (Allowed c begin now) (IsListing c app) after_list after_list-Allowed
        (read (c.list_workspaces app.key.namespace app.key.name) w)
        (Delivers-read (Allowed c begin now) (IsListing c app)
          (c.list_workspaces app.key.namespace app.key.name) (λ s t l e. (s, t, e)) w h)
    where
      after_list : List Workspace → M c.Server (Unit {0})
      after_list l =
          reclaim_orphaned_claims c app l
          >> reclaim_victims c stamp app spec (victims app spec now l)

      are_victims :
          (l : List Workspace)
          → IsListing c app l
          → All (IsVictim c begin now app spec) (victims app spec now l)
      are_victims l g =
          All-members (IsVictim c begin now app spec) (victims app spec now l) (λ ws m. record {
            app_listed = listed;
            enabled = on;
            workspaces = l;
            listing = g;
            candidate =
                All-Memᴰ (IsCandidate app spec now l) (victims-IsCandidate app spec now l) m;
            chosen = m;
          })

      victims-Allowed :
          (l : List Workspace)
          → IsListing c app l
          → Keeps (Allowed c begin now) (reclaim_victims c stamp app spec (victims app spec now l))
      victims-Allowed l g v k =
          unfold reclaim_victims in
          reclaim_each-Allowed app spec (victims app spec now l) (are_victims l g) (none, v) k

      after_list-Allowed :
          (l : List Workspace) → IsListing c app l → Keeps (Allowed c begin now) (after_list l)
      after_list-Allowed l g =
          Keeps-bind (Allowed c begin now) (reclaim_orphaned_claims c app l) _
            (reclaim_orphaned_claims-Allowed c stamp begin now app spec l listed on g)
            (λ _. victims-Allowed l g)

  advance-log :
      (app : PerUserApp) (p : Passes) (f : Option ApiError) (r : Result (Unit {0}) × World c.Server)
      → (advance c stamp app now p f r).2 ≡ r.1
  advance-log app p f (ok u, w) = refl
  advance-log app p f (err e, w) = refl

  reclaim_one-Allowed :
      (app : PerUserApp) (p : Passes) (f : Option ApiError) (w : World c.Server)
      → IsListedApp c begin app
      → All (Allowed c begin now) (requests w.log)
      → All (Allowed c begin now) (requests (reclaim_one c stamp now app (p, f, w)).2.log)
  unfolding reclaim_one
  reclaim_one-Allowed app p f w a h = elim (Option-cases (enabled_reclaim app)) [
    | inl off ↦ rw (off, reclaim_one) h
    | inr (spec, on) ↦
        rw (on, reclaim_one)
          (elim (Bool-cases (is_early (p app.key) now spec.interval)) [
            | inl e ↦ rw e h
            | inr e ↦
                rw (e, advance-log app p f (reclaim_app c stamp app spec now w))
                  (reclaim_app-Allowed app spec a on w h)
          ])
  ]

  reclaim_apps-Allowed :
      (l : List PerUserApp) (s : Passes × Option ApiError × World c.Server)
      → All (IsListedApp c begin) l
      → All (Allowed c begin now) (requests s.2.log)
      → All (Allowed c begin now) (requests (reclaim_apps c stamp now l s).2.log)
  unfolding reclaim_apps
  reclaim_apps-Allowed [] s a h = h
  reclaim_apps-Allowed (app ∷ l) s a h =
      reclaim_apps-Allowed l (reclaim_one c stamp now app s) a.1
        (reclaim_one-Allowed app s.0 s.1 s.2 a.0 h)

  -- A whole pass of the Reclaimer, from an empty log and whatever the server answers, makes only
  -- the writes of `Allowed`: a workspace is deleted only if it was listed for an app that the pass
  -- listed and that has reclaiming enabled, and is live, reclaimable and among the overage; a claim
  -- only if it was read for such a workspace or listed as an orphan of such an app; and no
  -- Deployment, Service or status is written.
  pub reclaim-Allowed :
      (p : Passes)
      → All
          (Allowed c begin now)
          (requests (reclaim c stamp now p (record { server = begin; log = [] })).2.log)
  unfolding reclaim reclaim_listed finish
  reclaim-Allowed p = elim (answer-cases (c.list_apps begin)) [
    | inl (l, t, e) ↦
        rw (e, reclaim)
          (reclaim_apps-Allowed l (p, none, record { server = t; log = [] })
            (All-members (IsListedApp c begin) l (λ app m. (l, t, e, m))) tt)
    | inr (d, t, e) ↦ rw (e, reclaim) tt
  ]

  reclaim_apps_off :
      (l : List PerUserApp)
      → All (λ app. enabled_reclaim app ≡ none) l
      → (s : Passes × Option ApiError × World c.Server) → reclaim_apps c stamp now l s ≡ s
  unfolding reclaim_apps reclaim_one
  reclaim_apps_off [] h s = refl
  reclaim_apps_off (app ∷ l) h (p, f, w) =
      reclaim_apps_off l h.1 (reclaim_one c stamp now app (p, f, w)) ∙ rw (h.0, reclaim_one)

  -- Reclaiming is opt-in: if no listed app has it set and enabled, a pass succeeds, marks no app
  -- and makes no call but the listing.
  reclaim_opt_in :
      (p : Passes) (w : World c.Server) (l : List PerUserApp) (t : c.Server)
      → c.list_apps w.server ≡ (ok l, t)
      → All (λ app. enabled_reclaim app ≡ none) l
      → reclaim c stamp now p w ≡ (p, ok tt, record w { server = t })
  unfolding reclaim reclaim_listed finish
  reclaim_opt_in p w l t e h =
      rw (e, reclaim) (rw (reclaim_apps_off l h (p, none, record w { server = t })))
