-- ===== src/Common/Lists.antt =====
-- Lists measured by native numbers, filtered by Boolean tests, and predicates on them.
use Prim.Native.Nat.{ℕ, zero, suc, ◌+◌, ◌≤◌, min}
use mathlib.Core.Path.{◌≡◌, refl, sym, ap, subst}
use mathlib.Core.Bool.{Bool, true, false, ◌&&◌, ◌||◌}
use mathlib.Core.List.{List, [], ◌∷◌, ◌++◌, map, Memᴰ}
use native.Mathlib.Omega.{arith}
use per_user_container_opera.Common.Tests.{if◌then◌else◌, Bool-cases}
use mathlib.Core.Logic.{inl, inr}

module _ {ℓ} {A : Type ℓ} where
  abbrev pub length : List A → ℕ
  length [] = 0
  length (x ∷ xs) = suc (length xs)

  abbrev pub take : ℕ → List A → List A
  take zero xs = []
  take (suc n) [] = []
  take (suc n) (x ∷ xs) = x ∷ take n xs

  abbrev pub drop : ℕ → List A → List A
  drop zero xs = xs
  drop (suc n) [] = []
  drop (suc n) (x ∷ xs) = drop n xs

  -- The elements that pass a test, in order.
  abbrev pub keep : (A → Bool) → List A → List A
  keep p [] = []
  keep p (x ∷ xs) = if p x then x ∷ keep p xs else keep p xs

  abbrev pub any : (A → Bool) → List A → Bool
  any p [] = false
  any p (x ∷ xs) = p x || any p xs

  abbrev pub all : (A → Bool) → List A → Bool
  all p [] = true
  all p (x ∷ xs) = p x && all p xs

  -- Pushes the elements on a log whose newest entry stands first.
  abbrev pub push_all : List A → List A → List A
  push_all [] log = log
  push_all (x ∷ xs) log = push_all xs (x ∷ log)

  pub length-append : (xs ys : List A) → length (xs ++ ys) ≡ length xs + length ys
  length-append [] ys = omega arith
  length-append (x ∷ xs) ys = omega (arith, length-append xs ys)

  pub length-keep_le : (p : A → Bool) (xs : List A) → length (keep p xs) ≤ length xs
  length-keep_le p [] = omega arith
  length-keep_le p (x ∷ xs) = ground (arith, length-keep_le p xs)

abbrev pub All {ℓ κ} : {A : Type ℓ} → (A → Type κ) → List A → Type κ
All P [] = Unit
All P (x ∷ xs) = P x × All P xs

module _ {ℓ κ} {A : Type ℓ} (P : A → Type κ) where
  pub All-append : (xs ys : List A) → All P xs → All P ys → All P (xs ++ ys)
  All-append [] ys hx hy = hy
  All-append (x ∷ xs) ys hx hy = (hx.0, All-append xs ys hx.1 hy)

  pub All-take : (n : ℕ) (xs : List A) → All P xs → All P (take n xs)
  All-take zero xs h = tt
  All-take (suc n) [] h = tt
  All-take (suc n) (x ∷ xs) h = (h.0, All-take n xs h.1)

  -- Every element is in the list for which the property holds.
  pub All-Memᴰ : {a : A} {xs : List A} → All P xs → Memᴰ a xs → P a
  All-Memᴰ h (Memᴰ.head e) = subst P (sym e) h.0
  All-Memᴰ h (Memᴰ.tail m) = All-Memᴰ h.1 m

module _ {ℓ κ} {A : Type ℓ} (P : A → Type κ) where
  pub All-push_all : (xs log : List A) → All P xs → All P log → All P (push_all xs log)
  All-push_all [] log h k = k
  All-push_all (x ∷ xs) log h k = All-push_all xs (x ∷ log) h.1 (h.0, k)

  pub All-map-keep {μ} :
      {B : Type μ} (f : B → A) (p : B → Bool) (xs : List B)
      → ((b : B) → p b ≡ true → P (f b))
      → All P (map f (keep p xs))
  All-map-keep f p [] h = tt
  All-map-keep f p (x ∷ xs) h = elim (Bool-cases (p x)) [
    | inl e ↦ rw e (h x e, All-map-keep f p xs h)
    | inr e ↦ rw e (All-map-keep f p xs h)
  ]

  pub All-map-keep-members {μ} :
      {B : Type μ} (f : B → A) (p : B → Bool) (xs : List B)
      → ((b : B) → Memᴰ b xs → p b ≡ true → P (f b))
      → All P (map f (keep p xs))
  All-map-keep-members f p [] h = tt
  All-map-keep-members f p (x ∷ xs) h = elim (Bool-cases (p x)) [
    | inl e ↦
        rw e (h x (Memᴰ.head refl) e, All-map-keep-members f p xs (λ b m t. h b (Memᴰ.tail m) t))
    | inr e ↦ rw e (All-map-keep-members f p xs (λ b m t. h b (Memᴰ.tail m) t))
  ]

module _ {ℓ} {A : Type ℓ} where
  pub take-append-drop : (n : ℕ) (xs : List A) → take n xs ++ drop n xs ≡ xs
  take-append-drop zero xs = refl
  take-append-drop (suc n) [] = refl
  take-append-drop (suc n) (x ∷ xs) = rw (take-append-drop n xs)

  pub length-take : (n : ℕ) (xs : List A) → length (take n xs) ≡ min n (length xs)
  length-take zero xs = omega arith
  length-take (suc n) [] = omega arith
  length-take (suc n) (x ∷ xs) = omega (arith, length-take n xs)

  pub length-take_le : (n : ℕ) (xs : List A) → n ≤ length xs → length (take n xs) ≡ n
  length-take_le zero xs h = omega arith
  length-take_le (suc n) [] h = absurd (omega arith)
  length-take_le (suc n) (x ∷ xs) h = omega (arith, length-take_le n xs (omega arith))

  -- Ends of one length split off in one way.
  pub append_injective :
      (s t u v : List A) → length u ≡ length v → s ++ u ≡ t ++ v → (s ≡ t) × (u ≡ v)
  append_injective [] [] u v h e = (refl, e)
  append_injective [] (b ∷ t) u v h e = absurd (omega (arith, ap length e, length-append t v))
  append_injective (a ∷ s) [] u v h e = absurd (omega (arith, ap length e, length-append s u))
  append_injective (a ∷ s) (b ∷ t) u v h e =
      let r = append_injective s t u v h (cc e) in ((λ i. head_eq e i ∷ r.0 i), r.1)
    where
      head_eq : (a ∷ s ++ u) ≡ (b ∷ t ++ v) → a ≡ b
      head_eq p = cc p

module _ {ℓ κ} {A : Type ℓ} (P : A → Type κ) where
  pub All-drop : (n : ℕ) (xs : List A) → All P xs → All P (drop n xs)
  All-drop zero xs h = h
  All-drop (suc n) [] h = tt
  All-drop (suc n) (x ∷ xs) h = All-drop n xs h.1

  pub All-keep : (p : A → Bool) (xs : List A) → ((a : A) → p a ≡ true → P a) → All P (keep p xs)
  All-keep p [] h = tt
  All-keep p (x ∷ xs) h = elim (Bool-cases (p x)) [
    | inl e ↦ rw e (h x e, All-keep p xs h)
    | inr e ↦ rw e (All-keep p xs h)
  ]

module _ {ℓ κ} {A : Type ℓ} (P : A → Type κ) where
  pub All-keep-members :
      (p : A → Bool) (xs : List A) → ((a : A) → Memᴰ a xs → p a ≡ true → P a) → All P (keep p xs)
  All-keep-members p [] h = tt
  All-keep-members p (x ∷ xs) h = elim (Bool-cases (p x)) [
    | inl e ↦ rw e (h x (Memᴰ.head refl) e, All-keep-members p xs (λ a m t. h a (Memᴰ.tail m) t))
    | inr e ↦ rw e (All-keep-members p xs (λ a m t. h a (Memᴰ.tail m) t))
  ]

pub All-members {ℓ κ} :
    {A : Type ℓ} (P : A → Type κ) (l : List A) → ((x : A) → Memᴰ x l → P x) → All P l
All-members P [] h = tt
All-members P (x ∷ l) h = (h x (Memᴰ.head refl), All-members P l (λ y m. h y (Memᴰ.tail m)))
