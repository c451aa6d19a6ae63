-- ===== src/Cluster/Keeps.antt =====
-- Rules by which every write that a computation makes has a property, whatever the server answers.
use per_user_container_opera.Common.{Bool, true, false, if◌then◌else◌, Result, ok, err, All}
use per_user_container_opera.Cluster.{
  Client, World, M, ◌>>=◌, then_step, read, send, Request, requests,
}

-- The property of the writes that are in the log is kept.
abbrev pub Keeps {κ} : {S A : Type 0} → (Request → Type κ) → M S A → Type κ
Keeps P m = (w : World _) → All P (requests w.log) → All P (requests (m w).1.log)

module _ {κ} {S : Type 0} (P : Request → Type κ) where
  pub Keeps-step :
      {A B : Type 0} (f : A → M S B)
      → ((a : A) → Keeps P (f a))
      → (r : Result A × World S) → All P (requests r.1.log)
      → All P (requests (then_step f r).1.log)
  Keeps-step f k (ok a, w) h = k a w h
  Keeps-step f k (err e, w) h = h

  pub Keeps-bind :
      {A B : Type 0} (m : M S A) (f : A → M S B)
      → Keeps P m
      → ((a : A) → Keeps P (f a))
      → Keeps P (m >>= f)
  Keeps-bind m f k l w h = Keeps-step f l (m w) (k w h)

  pub Keeps-if :
      {A : Type 0} (b : Bool) (m n : M S A)
      → Keeps P m
      → Keeps P n
      → Keeps P (λ w. if b then m w else n w)
  Keeps-if true m n h k = h
  Keeps-if false m n h k = k

  pub Keeps-read : {A : Type 0} (f : S → Result A × S) → Keeps P (read f)
  Keeps-read f w h = h

-- The property of the writes, and a property of the value if there is one.
abbrev pub Ends {κ} :
    {S A : Type 0} → (Request → Type κ) → (A → Type 0) → Result A × World S → Type κ
Ends P Q (ok a, w) = Q a × All P (requests w.log)
Ends P Q (err e, w) = All P (requests w.log)

module _ {κ} {S A : Type 0} (P : Request → Type κ) (Q : A → Type 0) where
  pub Ends-step :
      {B : Type 0} (f : A → M S B)
      → ((a : A) → Q a → Keeps P (f a))
      → (r : Result A × World S) → Ends P Q r
      → All P (requests (then_step f r).1.log)
  Ends-step f k (ok a, w) h = k a h.0 w h.1
  Ends-step f k (err e, w) h = h

  Ends-after :
      {B : Type 0} (f : B → M S A)
      → ((b : B) (w : World S) → All P (requests w.log) → Ends P Q (f b w))
      → (r : Result B × World S) → All P (requests r.1.log)
      → Ends P Q (then_step f r)
  Ends-after f k (ok b, w) h = k b w h
  Ends-after f k (err e, w) h = h

  pub Ends-bind :
      {B : Type 0} (m : M S B) (f : B → M S A)
      → Keeps P m
      → ((b : B) (w : World S) → All P (requests w.log) → Ends P Q (f b w))
      → (w : World S) → All P (requests w.log)
      → Ends P Q ((m >>= f) w)
  Ends-bind m f k l w h = Ends-after f l (m w) (k w h)

module _ {κ} (c : Client) (P : Request → Type κ) where
  pub Keeps-send : (q : Request) → P q → Keeps P (send c q)
  unfolding send
  Keeps-send q p w h = (p, h)
