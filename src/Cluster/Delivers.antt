-- ===== src/Cluster/Delivers.antt =====
-- Rules by which the writes that a computation makes have one property and its value has another,
-- whatever the server answers.
use per_user_container_opera.Common.{
  ◌≡◌, refl, inl, inr, Bool, true, false, if◌then◌else◌, Result, ok, err, All,
}
use per_user_container_opera.Api.Workspace.{Workspace}
use per_user_container_opera.Cluster.{
  Client, World, M, ◌>>=◌, then_step, pure, read, send_status_patch, send_create_workspace, Request,
  requests, patch_workspace_status, create_workspace, answer-cases,
}
use per_user_container_opera.Cluster.Keeps.{Ends}

abbrev pub Delivers {κ} : {S A : Type 0} → (Request → Type κ) → (A → Type 0) → M S A → Type κ
Delivers P Q m = (w : World _) → All P (requests w.log) → Ends P Q (m w)

module _ {κ} {S : Type 0} (P : Request → Type κ) where
  pub Delivers-step :
      {A B : Type 0} (Q : A → Type 0) (R : B → Type 0) (f : A → M S B)
      → ((a : A) → Q a → Delivers P R (f a))
      → (r : Result A × World S) → Ends P Q r
      → Ends P R (then_step f r)
  Delivers-step Q R f k (ok a, w) h = k a h.0 w h.1
  Delivers-step Q R f k (err e, w) h = h

  pub Delivers-bind :
      {A B : Type 0} (Q : A → Type 0) (R : B → Type 0) (m : M S A) (f : A → M S B)
      → Delivers P Q m
      → ((a : A) → Q a → Delivers P R (f a))
      → Delivers P R (m >>= f)
  Delivers-bind Q R m f d k w h = Delivers-step Q R f k (m w) (d w h)

  pub Delivers-if :
      {A : Type 0} (Q : A → Type 0) (b : Bool) (m n : M S A)
      → (b ≡ true → Delivers P Q m)
      → (b ≡ false → Delivers P Q n)
      → Delivers P Q (if b then m else n)
  Delivers-if Q true m n h k = h refl
  Delivers-if Q false m n h k = k refl

  pub Delivers-pure : {A : Type 0} (Q : A → Type 0) (a : A) → Q a → Delivers P Q (pure {S = S} a)
  Delivers-pure Q a q w h = (q, h)

  pub Delivers-read :
      {A : Type 0} (Q : A → Type 0) (f : S → Result A × S)
      → ((s t : S) (a : A) → f s ≡ (ok a, t) → Q a)
      → Delivers P Q (read f)
  Delivers-read Q f q w h = elim (answer-cases (f w.server)) [
    | inl (a, t, e) ↦ rw e (q w.server t a e, h)
    | inr (d, t, e) ↦ rw e h
  ]

  -- The writes of a computation whose value is of no matter.
  pub Ends-log :
      {A : Type 0} (Q : A → Type 0) (r : Result A × World S) → Ends P Q r → All P (requests r.1.log)
  Ends-log Q (ok a, w) h = h.1
  Ends-log Q (err e, w) h = h

module _ {κ} (c : Client) (P : Request → Type κ) (Q : Workspace → Type 0) where
  pub Delivers-patch :
      (base ws : Workspace)
      → P (patch_workspace_status base ws)
      → ((s t : c.Server) (a : Workspace) → c.patch_status base ws s ≡ (ok a, t) → Q a)
      → Delivers P Q (send_status_patch c base ws)
  unfolding send_status_patch
  Delivers-patch base ws p q w h = elim (answer-cases (c.patch_status base ws w.server)) [
    | inl (a, t, e) ↦ rw e (q w.server t a e, (p, h))
    | inr (d, t, e) ↦ rw e (p, h)
  ]

  pub Delivers-create :
      (ws : Workspace)
      → P (create_workspace ws)
      → ((s t : c.Server) (a : Workspace) → c.create_user_workspace ws s ≡ (ok a, t) → Q a)
      → Delivers P Q (send_create_workspace c ws)
  unfolding send_create_workspace
  Delivers-create ws p q w h = elim (answer-cases (c.create_user_workspace ws w.server)) [
    | inl (a, t, e) ↦ rw e (q w.server t a e, (p, h))
    | inr (d, t, e) ↦ rw e (p, h)
  ]
