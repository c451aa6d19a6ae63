-- ===== src/Admission/Queue/Laws.antt =====
-- The admission queue: how many have their turn, and which (internal/controller/admission.go, TryAdmit).
use mathlib.Core.List.{Perm}
use mathlib.Core.List.Perm
use per_user_container_opera.Common.{
  ◌≡◌, refl, ◌∙◌, sym, ap, subst, ◌⊎◌, inl, inr, Bool, true, false, List, [], ◌∷◌, ◌++◌, ◌+◌, ◌≤◌,
  min, pos, pos_part, -ℤ_parts, +ℤ_parts, ◌+ℤ◌, ◌≤ℤ◌, leb_ℤ, length, drop, take-append-drop,
  length-take, keep, any, sort_stable, sort_stable-perm, length-sort_stable, take-sort_stable, All,
  All-keep, arith, Bool-cases,
}
use per_user_container_opera.Api.Workspace.{Workspace, Key, key_eq, key_eq_iff}
use per_user_container_opera.Api.App.{PerUserApp}
use per_user_container_opera.Admission.Queue.{earlier, is_pending, occupied, slots, front, has_turn}

-- As many workspaces have their turn as there are free slots, or as are pending if these are fewer.
length-front :
    (app : PerUserApp) (l : List Workspace)
    → length (front app l) ≡ min (pos_part (slots app l)) (length (keep is_pending l))
unfolding front
length-front app l = elim (Bool-cases (leb_ℤ (slots app l) (pos 0))) [
  | inl e ↦ rw e (ground (arith, e))
  | inr e ↦ rw e (
      length-take (pos_part (slots app l)) (sort_stable earlier (keep is_pending l))
      ∙ ap (min (pos_part (slots app l))) (length-sort_stable earlier (keep is_pending l)))
]

-- First in, first out: with those that wait, the workspaces that have their turn make up the
-- pending ones, and none that waits was enqueued before one that has its turn.
pub front_first :
    (app : PerUserApp) (l : List Workspace)
    → (waiting : List Workspace) × Perm (front app l ++ waiting) (keep is_pending l)
      × All (λ v. All (λ u. earlier u v ≡ false) waiting) (front app l)
unfolding front
front_first app l =
    let ps = keep is_pending l in
    let sorted = sort_stable earlier ps in
    let n = pos_part (slots app l) in
    elim (Bool-cases (leb_ℤ (slots app l) (pos 0))) [
      | inl e ↦ rw e (ps, Perm.refl ps, tt)
      | inr e ↦ rw e (
        drop n sorted,
        rw (take-append-drop n sorted) (sort_stable-perm earlier ps),
        take-sort_stable earlier (λ w. Unit {0}) (λ a b p q h. ground arith)
            (λ a b c p q r h k. ground arith) n ps
            (All-keep (λ w. Unit {0}) is_pending l (λ w e. tt)),
      )
    ]

-- No two workspaces of a list have one key.
abbrev pub IsDistinct : List Workspace → Type 0
IsDistinct [] = Unit
IsDistinct (x ∷ xs) = All (λ y. key_eq x.key y.key ≡ false) xs × IsDistinct xs

keep_other :
    (k : Key) (x : Workspace) (l : List Workspace)
    → key_eq k x.key ≡ true
    → All (λ y. key_eq x.key y.key ≡ false) l
    → keep (λ ws. key_eq k ws.key) l ≡ []
keep_other k x [] e h = refl
keep_other k x (y ∷ l) e h =
    let apart : key_eq k y.key ≡ false =
      subst (λ (j : Key). key_eq j y.key ≡ false) (sym ((key_eq_iff k x.key).0 e)) h.0 in
    rw apart (keep_other k x l e h.1)

length-keep_key :
    (k : Key) (l : List Workspace) → IsDistinct l → length (keep (λ ws. key_eq k ws.key) l) ≤ 1
length-keep_key k [] h = omega arith
length-keep_key k (x ∷ l) h = elim (Bool-cases (key_eq k x.key)) [
  | inl e ↦ rw e (omega (arith, ap length (keep_other k x l e h.0)))
  | inr e ↦ rw e (length-keep_key k l h.1)
]

-- Whether a workspace is among those of a list.
abbrev among : List Workspace → Workspace → Bool
among m ws = any (λ w. key_eq w.key ws.key) m

length-keep-among_cons :
    (y : Workspace) (m l : List Workspace)
    → length (keep (among (y ∷ m)) l)
      ≤ length (keep (λ ws. key_eq y.key ws.key) l) + length (keep (among m) l)
length-keep-among_cons y m [] = omega arith
length-keep-among_cons y m (x ∷ l) = ground (arith, length-keep-among_cons y m l)

keep_nothing : (l : List Workspace) → length (keep (among []) l) ≤ 0
keep_nothing [] = omega arith
keep_nothing (x ∷ l) = keep_nothing l

length-keep-among : (m l : List Workspace) → IsDistinct l → length (keep (among m) l) ≤ length m
length-keep-among [] l h = keep_nothing l
length-keep-among (y ∷ m) l h =
    omega (arith, length-keep-among_cons y m l, length-keep_key y.key l h, length-keep-among m l h)

-- The limit on concurrent starts: if no two listed workspaces have one key, those that occupy a
-- slot and those that have their turn are together at most `maxConcurrentStarts`, or no workspace
-- has its turn.
pub has_turn_limited :
    (app : PerUserApp) (l : List Workspace)
    → IsDistinct l
    → (length (keep (λ ws. has_turn ws app l) l) ≡ 0)
      ⊎ (pos (length (keep (λ ws. has_turn ws app l) l)) +ℤ pos (occupied l)
          ≤ℤ app.spec.limits.max_concurrent_starts)
unfolding has_turn
has_turn_limited app l h =
    let n = length (keep (λ ws. has_turn ws app l) l) in
    let bounded : n ≤ length (front app l) = length-keep-among (front app l) l h in
    let parts = -ℤ_parts app.spec.limits.max_concurrent_starts (pos (occupied l)) in
    let sum = +ℤ_parts (pos n) (pos (occupied l)) in
    elim (Bool-cases (leb_ℤ (slots app l) (pos 0))) [
      | inl e ↦ inl (ground (arith, length-front app l))
      | inr e ↦ inr (ground (arith, length-front app l))
    ]
