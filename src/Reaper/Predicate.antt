-- ===== src/Reaper/Predicate.antt =====
-- internal/controller/reaper.go: which workspaces are idle.
use mathlib.Core.List.{Perm, Permᴰ, Memᴰ}
use mathlib.Core.Logic.{∥∥₁_elim}
use per_user_container_opera.Common.{
  ℕ, ◌≡◌, refl, ◌∙◌, sym, ap, subst, ◌↔◌, inl, inr, Bool, true, false, none, some, List, [], ◌∷◌,
  Text, Time, Duration, ℤ, ℤ-set, pos, negsuc, ◌+◌, ◌<◌, ◌≤◌, ◌+ℤ◌, ◌*ℤ◌, wrap32, wrap64, wrap32-+ℤ,
  int_laws, ltb_ℤ, leb_ℤ, if◌then◌else◌, arith, ◌<ℤ◌, eqb_ℤ, IsInner, All, pos_part, neg_part,
  Option-cases, time_sub, time_sub-le,
}
use per_user_container_opera.Api.Workspace.{Workspace, ConnectionEntry, ready, phase_eq}
use per_user_container_opera.Api.App.{PerUserApp}

-- `now.Sub(entry.HeartbeatAt.Time) < threshold`.
abbrev pub is_fresh : Time → Duration → ConnectionEntry → Bool
is_fresh now threshold entry = ltb_ℤ (time_sub now entry.heartbeat_at) threshold

-- The body of the loop over the connections, `total` an int32.
add_entry : Time → Duration → ℤ → ConnectionEntry → ℤ
add_entry now threshold total entry =
    if is_fresh now threshold entry then wrap32 (total +ℤ entry.count) else total

unfoldable pub sum_fresh : Time → Duration → ℤ → List (Text × ConnectionEntry) → ℤ
unfolding add_entry
sum_fresh now threshold total [] = total
sum_fresh now threshold total ((pod, entry) ∷ rest) =
    sum_fresh now threshold (add_entry now threshold total entry) rest

-- `2 * ConnectionHeartbeatInterval`, an int64.
unfoldable pub threshold : PerUserApp → Duration
threshold app = wrap64 (pos 2 *ℤ app.spec.lifecycle.connection_heartbeat_interval)

unfoldable pub fresh_connection_count : Workspace → PerUserApp → Time → ℤ
fresh_connection_count ws app now = sum_fresh now (threshold app) (pos 0) ws.status.connections

unfoldable pub is_reapable : Workspace → PerUserApp → Time → Bool
is_reapable ws app now =
    if phase_eq ws.status.phase ready
    then if ws.status.scaled_down then false else elim ws.status.last_activity [
      | none ↦ false
      | some at ↦
          if leb_ℤ (time_sub now at) app.spec.lifecycle.idle_timeout
          then false
          else eqb_ℤ (fresh_connection_count ws app now) (pos 0)
    ]
    else false

-- The predicate of the doc comment, all four clauses and both directions, for a timeout inside int64:
-- ready, not yet scaled down, last active more than the timeout ago, and no fresh connection.
is_reapable_iff :
    (ws : Workspace) (app : PerUserApp) (now : Time)
    → IsInner app.spec.lifecycle.idle_timeout
    → (is_reapable ws app now ≡ true) ↔ (
        (ws.status.phase ≡ ready)
        × (ws.status.scaled_down ≡ false)
        × ((at : Time) × (ws.status.last_activity ≡ some at)
            × (at +ℤ app.spec.lifecycle.idle_timeout <ℤ now))
        × (fresh_connection_count ws app now ≡ pos 0))
unfolding is_reapable
is_reapable_iff ws app now h = elim (Option-cases ws.status.last_activity) [
  | inl e ↦ (λ t. ground arith, λ c. ground (arith, c.2.1))
  | inr (at, e) ↦ (
    λ t. (
      ground arith,
      ground arith,
      (at, e, ground (arith, time_sub-le now at app.spec.lifecycle.idle_timeout h)),
      ground arith,
    ),
    λ c. ground (arith, c.2.1, time_sub-le now at app.spec.lifecycle.idle_timeout h),
  )
]

wrap32_swap : (t a b : ℤ) → wrap32 (wrap32 (t +ℤ a) +ℤ b) ≡ wrap32 (wrap32 (t +ℤ b) +ℤ a)
wrap32_swap t a b = wrap32-+ℤ (t +ℤ a) b ∙ ap wrap32 (omega int_laws) ∙ sym (wrap32-+ℤ (t +ℤ b) a)

add_entry_swap :
    (now : Time) (d : Duration) (t : ℤ) (x y : ConnectionEntry)
    → add_entry now d (add_entry now d t x) y ≡ add_entry now d (add_entry now d t y) x
unfolding add_entry
add_entry_swap now d t x y = ground (arith, wrap32_swap t x.count y.count)

-- A count that is not negative.
abbrev pub HasCount : Text × ConnectionEntry → Type 0
HasCount e = neg_part e.1.count ≡ 0

wrap32-add_pos :
    (n : ℕ) (z : ℤ)
    → neg_part z ≡ 0
    → n + pos_part z < 2147483648
    → wrap32 (pos n +ℤ z) ≡ pos (n + pos_part z)
unfolding wrap32 ◌+ℤ◌
wrap32-add_pos n (pos m) h b = ground arith
wrap32-add_pos n (negsuc m) h b = absurd (omega arith)

add_entry_exact :
    (now : Time) (d : Duration) (n : ℕ) (x : ConnectionEntry)
    → neg_part x.count ≡ 0
    → n + (if is_fresh now d x then pos_part x.count else 0) < 2147483648
    → add_entry now d (pos n) x ≡ pos (n + (if is_fresh now d x then pos_part x.count else 0))
unfolding add_entry
add_entry_exact now d n x h b = ground (arith, wrap32-add_pos n x.count)

module _ (now : Time) (d : Duration) where
  sum_fresh-permᴰ :
      (t : ℤ) {l m : List (Text × ConnectionEntry)}
      → Permᴰ l m
      → sum_fresh now d t l ≡ sum_fresh now d t m
  unfolding sum_fresh
  sum_fresh-permᴰ t Permᴰ.nil = refl
  sum_fresh-permᴰ t (Permᴰ.cons {a = x} {l₂ = ys} e p) =
      sum_fresh-permᴰ (add_entry now d t x.1) p
      ∙ ap (λ (z : Text × ConnectionEntry). sum_fresh now d (add_entry now d t z.1) ys) e
  sum_fresh-permᴰ t (Permᴰ.swap {a = x} {b = y} {l = xs} e f) =
      ap (λ (z : ℤ). sum_fresh now d z xs)
        (add_entry_swap now d t x.1 y.1
          ∙ (λ i. add_entry now d (add_entry now d t (f i).1) (e i).1))
  sum_fresh-permᴰ t (Permᴰ.trans p q) = sum_fresh-permᴰ t p ∙ sum_fresh-permᴰ t q

  -- The order in which Go walks the map of connections does not change the sum.
  pub sum_fresh-perm :
      (t : ℤ) {l m : List (Text × ConnectionEntry)}
      → Perm l m
      → sum_fresh now d t l ≡ sum_fresh now d t m
  sum_fresh-perm t p = ∥∥₁_elim p (ℤ-set _ _) (sum_fresh-permᴰ t)

  -- The open connections of the replicas that still report, as an unbounded number.
  abbrev pub live_connections : List (Text × ConnectionEntry) → ℕ
  live_connections [] = 0
  live_connections ((pod, entry) ∷ rest) =
      (if is_fresh now d entry then pos_part entry.count else 0) + live_connections rest

  -- While the counts are not negative and their sum fits an int32, the sum is exact.
  pub sum_fresh_exact :
      (n : ℕ) (l : List (Text × ConnectionEntry))
      → All HasCount l
      → n + live_connections l < 2147483648
      → sum_fresh now d (pos n) l ≡ pos (n + live_connections l)
  unfolding sum_fresh
  sum_fresh_exact n [] h b = ap pos (omega arith)
  sum_fresh_exact n ((pod, entry) ∷ rest) h b =
      let k : ℕ = if is_fresh now d entry then pos_part entry.count else 0 in
      ap (λ (z : ℤ). sum_fresh now d z rest) (add_entry_exact now d n entry h.0 (omega arith))
      ∙ sum_fresh_exact (n + k) rest h.1 (omega arith)
      ∙ ap pos (omega arith)

  pub live-le-live_connections :
      {e : Text × ConnectionEntry} (l : List (Text × ConnectionEntry))
      → Memᴰ e l
      → is_fresh now d e.1 ≡ true
      → pos_part e.1.count ≤ live_connections l
  live-le-live_connections [] m f = elim m [ ]
  live-le-live_connections (x ∷ l) (Memᴰ.head e) f =
      subst
        (λ (z : Text × ConnectionEntry).
          is_fresh now d z.1 ≡ true → pos_part z.1.count ≤ live_connections (x ∷ l))
        (sym e) (λ (t : is_fresh now d x.1 ≡ true). ground arith) f
  live-le-live_connections (x ∷ l) (Memᴰ.tail m) f = omega (arith, live-le-live_connections l m f)

-- A workspace with a live connection is never reapable: if the counts are not negative and their
-- sum fits an int32, one fresh entry with a positive count is enough, whatever the other replicas
-- report and however idle the workspace looks.
pub is_reapable-live :
    (ws : Workspace) (app : PerUserApp) (now : Time) (e : Text × ConnectionEntry)
    → All HasCount ws.status.connections
    → live_connections now (threshold app) ws.status.connections < 2147483648
    → Memᴰ e ws.status.connections
    → is_fresh now (threshold app) e.1 ≡ true
    → 0 < pos_part e.1.count
    → is_reapable ws app now ≡ false
unfolding is_reapable fresh_connection_count
is_reapable-live ws app now e h b m f p = ground (
  arith,
  live-le-live_connections now (threshold app) ws.status.connections m f,
  sum_fresh_exact now (threshold app) 0 ws.status.connections h (omega arith),
)

-- Whether a workspace is reapable does not depend on the order of its map of connections.
is_reapable-perm :
    (ws : Workspace) (app : PerUserApp) (now : Time) (m : List (Text × ConnectionEntry))
    → Perm ws.status.connections m
    → is_reapable (record ws { status = record (ws.status) { connections = m } }) app now
      ≡ is_reapable ws app now
unfolding is_reapable fresh_connection_count
is_reapable-perm ws app now m p = ground (arith, sum_fresh-perm now (threshold app) (pos 0) p)
