-- ===== src/Common/Sort.antt =====
-- `sort.SliceStable`: the stable sort by a test is unique, so it is written as an insertion sort.
use Prim.Native.Nat.{ℕ, zero, suc}
use mathlib.Core.Path.{◌≡◌, refl}
use mathlib.Core.Logic.{inl, inr}
use mathlib.Core.List.{List, [], ◌∷◌, Perm}
use mathlib.Core.List.Perm
use mathlib.Core.Bool.{Bool, true, false}
use native.Mathlib.Omega.{arith}
use per_user_container_opera.Common.Tests.{if◌then◌else◌, Bool-cases}
use per_user_container_opera.Common.Lists.{All, All-drop, length, take, drop}

module _ {ℓ} {A : Type ℓ} (less : A → A → Bool) where
  unfoldable pub insert_stable : A → List A → List A
  insert_stable x [] = x ∷ []
  insert_stable x (y ∷ ys) = if less y x then y ∷ insert_stable x ys else x ∷ y ∷ ys

  unfoldable pub sort_stable : List A → List A
  sort_stable [] = []
  sort_stable (x ∷ xs) = insert_stable x (sort_stable xs)

  insert_stable-perm : (x : A) (l : List A) → Perm (insert_stable x l) (x ∷ l)
  unfolding insert_stable
  insert_stable-perm x [] = Perm.refl _
  insert_stable-perm x (y ∷ ys) = elim (Bool-cases (less y x)) [
    | inl e ↦ rw e (Perm.trans (Perm.cons y (insert_stable-perm x ys)) (Perm.swap x y ys))
    | inr e ↦ rw e (Perm.refl _)
  ]

  pub sort_stable-perm : (l : List A) → Perm (sort_stable l) l
  unfolding sort_stable
  sort_stable-perm [] = Perm.refl _
  sort_stable-perm (x ∷ xs) =
      Perm.trans (insert_stable-perm x (sort_stable xs)) (Perm.cons x (sort_stable-perm xs))

  pub length-insert_stable : (x : A) (l : List A) → length (insert_stable x l) ≡ suc (length l)
  unfolding insert_stable
  length-insert_stable x [] = refl
  length-insert_stable x (y ∷ ys) = ground (arith, length-insert_stable x ys)

  pub length-sort_stable : (l : List A) → length (sort_stable l) ≡ length l
  unfolding sort_stable
  length-sort_stable [] = refl
  length-sort_stable (x ∷ xs) =
      omega (arith, length-insert_stable x (sort_stable xs), length-sort_stable xs)

  -- No element is less than one that stands before it.
  abbrev pub IsSorted : List A → Type ℓ
  IsSorted [] = Unit
  IsSorted (x ∷ xs) = All (λ y. less y x ≡ false) xs × IsSorted xs

  All-insert_stable {κ} :
      (Q : A → Type κ) (x : A) (l : List A) → Q x → All Q l → All Q (insert_stable x l)
  unfolding insert_stable
  All-insert_stable Q x [] h k = (h, tt)
  All-insert_stable Q x (y ∷ ys) h k = elim (Bool-cases (less y x)) [
    | inl e ↦ rw e (k.0, All-insert_stable Q x ys h k.1)
    | inr e ↦ rw e (h, k)
  ]

  pub All-sort_stable {κ} : (Q : A → Type κ) (l : List A) → All Q l → All Q (sort_stable l)
  unfolding sort_stable
  All-sort_stable Q [] h = tt
  All-sort_stable Q (x ∷ xs) h =
      All-insert_stable Q x (sort_stable xs) h.0 (All-sort_stable Q xs h.1)

  take-drop-before :
      (n : ℕ) (l : List A)
      → IsSorted l
      → All (λ v. All (λ u. less u v ≡ false) (drop n l)) (take n l)
  take-drop-before zero l h = tt
  take-drop-before (suc n) [] h = tt
  take-drop-before (suc n) (x ∷ xs) h =
      (All-drop (λ u. less u x ≡ false) n xs h.0, take-drop-before n xs h.1)

-- The test need be an order only on the elements at hand.
module _ {ℓ κ} {A : Type ℓ} (less : A → A → Bool) (P : A → Type κ)
    (asym : (a b : A) → P a → P b → less a b ≡ true → less b a ≡ false)
    (trans : (a b c : A)
      → P a
      → P b
      → P c
      → less b a ≡ false
      → less c b ≡ false
      → less c a ≡ false) where
  All-below :
      (x y : A) (l : List A)
      → P x
      → P y
      → All P l
      → less y x ≡ false
      → All (λ z. less z y ≡ false) l
      → All (λ z. less z x ≡ false) l
  All-below x y [] px py pl e h = tt
  All-below x y (z ∷ l) px py pl e h =
      (trans x y z px py pl.0 e h.0, All-below x y l px py pl.1 e h.1)

  insert_stable-IsSorted :
      (x : A) (l : List A)
      → P x
      → All P l
      → IsSorted less l
      → IsSorted less (insert_stable less x l)
  unfolding insert_stable
  insert_stable-IsSorted x [] px pl h = (tt, tt)
  insert_stable-IsSorted x (y ∷ ys) px pl h = elim (Bool-cases (less y x)) [
    | inl e ↦ rw e (
      All-insert_stable less (λ z. less z y ≡ false) x ys (asym y x pl.0 px e) h.0,
      insert_stable-IsSorted x ys px pl.1 h.1,
    )
    | inr e ↦ rw e ((e, All-below x y ys px pl.0 pl.1 e h.0), h)
  ]

  pub sort_stable-IsSorted : (l : List A) → All P l → IsSorted less (sort_stable less l)
  unfolding sort_stable
  sort_stable-IsSorted [] h = tt
  sort_stable-IsSorted (x ∷ xs) h =
      insert_stable-IsSorted x (sort_stable less xs) h.0 (All-sort_stable less P xs h.1)
        (sort_stable-IsSorted xs h.1)

  -- What is cut off the front of the sorted list is not after anything that stays.
  pub take-sort_stable :
      (n : ℕ) (l : List A)
      → All P l
      → All
          (λ v. All (λ u. less u v ≡ false) (drop n (sort_stable less l)))
          (take n (sort_stable less l))
  take-sort_stable n l h = take-drop-before less n (sort_stable less l) (sort_stable-IsSorted l h)
