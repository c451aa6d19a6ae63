-- ===== src/Router/Connections/Counts.antt =====
-- The counts of connections (internal/router/connections.go).
use per_user_container_opera.Common.{
  ◌≡◌, refl, sym, ap, ◌∙◌, true, [], ◌∷◌, ℤ, ℕ, zero, suc, pos, ◌+◌, ◌-◌, ◌<◌, ◌+ℤ◌, ◌-ℤ◌, ltb_ℤ,
  wrap32, if_cases, arith, Bool-cases, inl, inr,
}
use per_user_container_opera.Api.Workspace.{Key, key_eq, key_eq_iff}
use per_user_container_opera.Router.Connections.{Counts, count_of, set_count, opened, closed}

key_eq_refl : (k : Key) → key_eq k k ≡ true
key_eq_refl k = (key_eq_iff k k).1 refl

count_of-set_count : (l : Counts) (k : Key) (n : ℤ) → count_of (set_count l k n) k ≡ n
unfolding count_of set_count
count_of-set_count [] k n = rw (key_eq_refl k) refl
count_of-set_count ((j, m) ∷ l) k n = elim (Bool-cases (key_eq j k)) [
  | inl e ↦ rw (e, key_eq_refl k) refl
  | inr e ↦ rw (e, e) (count_of-set_count l k n)
]

add_one : (n : ℕ) → n < 2147483647 → wrap32 (pos n +ℤ pos 1) ≡ pos (n + 1)
unfolding ◌+ℤ◌ wrap32
add_one n b = ground arith

sub_one : (n : ℕ) → suc n < 2147483648 → wrap32 (pos (suc n) -ℤ pos 1) ≡ pos n
unfolding ◌-ℤ◌ wrap32
sub_one n b = ground arith

-- No close takes a count below zero: a positive one goes down by one, and zero stays.
count_of-closed :
    (l : Counts) (k : Key) (n : ℕ)
    → count_of l k ≡ pos n
    → n < 2147483648
    → count_of (closed l k) k ≡ pos (n - 1)
unfolding closed
count_of-closed l k zero e b = rw e e
count_of-closed l k (suc n) e b =
    if_cases (λ (m : Counts). count_of m k ≡ pos (suc n - 1)) (ltb_ℤ (pos 0) (count_of l k))
      (set_count l k (wrap32 (count_of l k -ℤ pos 1))) l
      (λ t.
        count_of-set_count l k (wrap32 (count_of l k -ℤ pos 1))
        ∙ ap (λ z. wrap32 (z -ℤ pos 1)) e
        ∙ sub_one n b
        ∙ ap pos (omega arith))
      (λ t. absurd (ground (arith, e)))

pub count_of-opened :
    (l : Counts) (k : Key) (n : ℕ)
    → count_of l k ≡ pos n
    → n < 2147483647
    → count_of (opened l k) k ≡ pos (n + 1)
unfolding opened
count_of-opened l k n e b =
    count_of-set_count l k (wrap32 (count_of l k +ℤ pos 1))
    ∙ ap (λ z. wrap32 (z +ℤ pos 1)) e
    ∙ add_one n b

-- Closing what was opened restores the count, if it was not negative and not the largest int32: a
-- router that opens and closes connections in pairs neither loses nor gains one.
pub closed-opened :
    (l : Counts) (k : Key) (n : ℕ)
    → count_of l k ≡ pos n
    → n < 2147483647
    → count_of (closed (opened l k) k) k ≡ count_of l k
closed-opened l k n e b =
    count_of-closed (opened l k) k (n + 1) (count_of-opened l k n e b) (omega arith)
    ∙ ap pos (omega arith)
    ∙ sym e
