-- ===== src/Common/Int.antt =====
-- Signed integers over the native numbers, under the library's names, and Go's `time` on them.
use Prim.Native.Nat.{ℕ, suc, ◌+◌, ◌-◌, ◌*◌, ◌%◌, ◌≤◌, ◌<◌}
use mathlib.Core.Path.{◌≡◌, ◌∙◌}
use mathlib.Core.Logic.{◌⊎◌}
use mathlib.Core.Bool.{Bool, true, false}
use native.Mathlib.Omega.{arith}
use per_user_container_opera.Common.Tests.{ltb, leb, ◌==◌, if◌then◌else◌}

-- `negsuc n` is -(n + 1).
pub data ℤ : Type 0 where
  pos : ℕ → ℤ
  negsuc : ℕ → ℤ

pub ℤ-set : IsSet ℤ
ℤ-set = hlevel

abbrev pub pos_part : ℤ → ℕ
pos_part (pos n) = n
pos_part (negsuc n) = 0

abbrev pub neg_part : ℤ → ℕ
neg_part (pos n) = 0
neg_part (negsuc n) = suc n

-- a - b, as an integer.
abbrev pub sub_ℕ : ℕ → ℕ → ℤ
sub_ℕ a b = if leb b a then pos (a - b) else negsuc (b - a - 1)

infixl 65 ◌+ℤ◌ ◌-ℤ◌
infixl 70 ◌*ℤ◌
infix 50 ◌≤ℤ◌ ◌<ℤ◌
unfoldable pub ◌+ℤ◌ : ℤ → ℤ → ℤ
a +ℤ b = sub_ℕ (pos_part a + pos_part b) (neg_part a + neg_part b)

unfoldable pub ◌-ℤ◌ : ℤ → ℤ → ℤ
a -ℤ b = sub_ℕ (pos_part a + neg_part b) (neg_part a + pos_part b)

unfoldable pub ◌*ℤ◌ : ℤ → ℤ → ℤ
a *ℤ b =
    sub_ℕ (pos_part a * pos_part b + neg_part a * neg_part b)
      (pos_part a * neg_part b + neg_part a * pos_part b)

abbrev pub ◌≤ℤ◌ : ℤ → ℤ → Type 0
a ≤ℤ b = pos_part a + neg_part b ≤ pos_part b + neg_part a

abbrev pub ◌<ℤ◌ : ℤ → ℤ → Type 0
a <ℤ b = pos_part a + neg_part b < pos_part b + neg_part a

abbrev pub ltb_ℤ : ℤ → ℤ → Bool
ltb_ℤ a b = ltb (pos_part a + neg_part b) (pos_part b + neg_part a)

abbrev pub leb_ℤ : ℤ → ℤ → Bool
leb_ℤ a b = leb (pos_part a + neg_part b) (pos_part b + neg_part a)

abbrev pub eqb_ℤ : ℤ → ℤ → Bool
eqb_ℤ a b = (pos_part a + neg_part b) == (pos_part b + neg_part a)

pub +ℤ_parts :
    (a b : ℤ)
    → pos_part (a +ℤ b) + neg_part a + neg_part b ≡ neg_part (a +ℤ b) + pos_part a + pos_part b
unfolding ◌+ℤ◌
+ℤ_parts a b = ground arith

pub -ℤ_parts :
    (a b : ℤ)
    → pos_part (a -ℤ b) + neg_part a + pos_part b ≡ neg_part (a -ℤ b) + pos_part a + neg_part b
unfolding ◌-ℤ◌
-ℤ_parts a b = ground arith

pub eq_of_parts : (a b : ℤ) → pos_part a + neg_part b ≡ pos_part b + neg_part a → a ≡ b
eq_of_parts a b h = ground arith

-- A test that passes is an order, and one that fails is the opposite order.
pub ltb_ℤ-cases : (a b : ℤ) → ((ltb_ℤ a b ≡ true) × (a <ℤ b)) ⊎ ((ltb_ℤ a b ≡ false) × (b ≤ℤ a))
ltb_ℤ-cases a b = ground arith

pub ruleset int_laws = (arith, +ℤ_parts, -ℤ_parts, eq_of_parts)

-- The value that an int32 register keeps of an integer.
unfoldable pub wrap32 : ℤ → ℤ
wrap32 z =
    let u = (pos_part z + (4294967296 - neg_part z % 4294967296)) % 4294967296 in
    if ltb u 2147483648 then pos u else sub_ℕ u 4294967296

-- The value that an int64 register keeps of an integer.
unfoldable pub wrap64 : ℤ → ℤ
wrap64 z =
    let u =
      (pos_part z + (18446744073709551616 - neg_part z % 18446744073709551616))
      % 18446744073709551616 in
    if ltb u 9223372036854775808 then pos u else sub_ℕ u 18446744073709551616

abbrev pub IsInt32 : ℤ → Type 0
IsInt32 z = (pos_part z < 2147483648) × (neg_part z ≤ 2147483648)

abbrev pub IsInt64 : ℤ → Type 0
IsInt64 z = (pos_part z < 9223372036854775808) × (neg_part z ≤ 9223372036854775808)

-- In range, nothing wraps.
pub wrap32_of_IsInt32 : (z : ℤ) → IsInt32 z → wrap32 z ≡ z
unfolding wrap32
wrap32_of_IsInt32 (pos n) h = ground arith
wrap32_of_IsInt32 (negsuc n) h = ground arith

pub wrap64_of_IsInt64 : (z : ℤ) → IsInt64 z → wrap64 z ≡ z
unfolding wrap64
wrap64_of_IsInt64 (pos n) h = ground arith
wrap64_of_IsInt64 (negsuc n) h = ground arith

-- An addition may be wrapped early or late.
pub wrap32-+ℤ : (a b : ℤ) → wrap32 (wrap32 a +ℤ b) ≡ wrap32 (a +ℤ b)
unfolding wrap32 ◌+ℤ◌
wrap32-+ℤ (pos n) (pos m) = ground arith
wrap32-+ℤ (pos n) (negsuc m) = ground arith
wrap32-+ℤ (negsuc n) (pos m) = ground arith
wrap32-+ℤ (negsuc n) (negsuc m) = ground arith

-- A `time.Duration` is an int64 of nanoseconds; a `time.Time` is a count of nanoseconds.
abbrev pub Duration : Type 0
Duration = ℤ

abbrev pub Time : Type 0
Time = ℤ

abbrev pub second : ℕ
second = 1000000000

-- What int64 keeps of a difference of times: the nearest end, out of range.
unfoldable pub saturate : ℤ → Duration
saturate d =
    if ltb 9223372036854775807 (pos_part d)
    then pos 9223372036854775807
    else if ltb 9223372036854775808 (neg_part d)
    then negsuc 9223372036854775807
    else d

-- `t.Sub(u)`.
abbrev pub time_sub : Time → Time → Duration
time_sub t u = saturate (t -ℤ u)

-- `t.Add(d)`.
abbrev pub time_add : Time → Duration → Time
time_add t d = t +ℤ d

-- `t.Before(u)` and `t.After(u)`.
abbrev pub before : Time → Time → Bool
before t u = ltb_ℤ t u

abbrev pub after : Time → Time → Bool
after t u = ltb_ℤ u t

-- Strictly inside the range of int64.
abbrev pub IsInner : Duration → Type 0
IsInner d = (pos_part d < 9223372036854775807) × (neg_part d < 9223372036854775808)

saturate-lt : (z d : ℤ) → IsInner d → ltb_ℤ (saturate z) d ≡ ltb_ℤ z d
unfolding saturate
saturate-lt (pos n) (pos m) h = ground arith
saturate-lt (pos n) (negsuc m) h = ground arith
saturate-lt (negsuc n) (pos m) h = ground arith
saturate-lt (negsuc n) (negsuc m) h = ground arith

saturate-le : (z d : ℤ) → IsInner d → leb_ℤ (saturate z) d ≡ leb_ℤ z d
unfolding saturate
saturate-le (pos n) (pos m) h = ground arith
saturate-le (pos n) (negsuc m) h = ground arith
saturate-le (negsuc n) (pos m) h = ground arith
saturate-le (negsuc n) (negsuc m) h = ground arith

-- Against a duration inside the range, saturation does not change a comparison.
pub time_sub-lt :
    (t u : Time) (d : Duration) → IsInner d → ltb_ℤ (time_sub t u) d ≡ ltb_ℤ t (u +ℤ d)
time_sub-lt t u d h = saturate-lt (t -ℤ u) d h ∙ ground (arith, -ℤ_parts t u, +ℤ_parts u d)

pub time_sub-le :
    (t u : Time) (d : Duration) → IsInner d → leb_ℤ (time_sub t u) d ≡ leb_ℤ t (u +ℤ d)
time_sub-le t u d h = saturate-le (t -ℤ u) d h ∙ ground (arith, -ℤ_parts t u, +ℤ_parts u d)
