-- ===== src/Admission/Backoff.antt =====
-- internal/controller/admission.go: `backoffDuration` and `RecordStartFailure`.
use native.Mathlib.Nat.{pow-suc}
use per_user_container_opera.Common.{
  ℕ, zero, suc, ◌≡◌, sym, ◌∙◌, ap, ◌-◌, ◌*◌, ◌/◌, ◌^◌, ◌≤◌, ◌<◌, true, false, some, Time, Duration,
  ℤ, pos, negsuc, pos_part, ◌+ℤ◌, ◌*ℤ◌, sub_ℕ, wrap32, wrap64, wrap64_of_IsInt64, IsInt64, ltb_ℤ,
  time_add, second, if◌then◌else◌, arith, inl, inr, Bool-cases,
}
use per_user_container_opera.Api.Workspace.{Workspace, StartFailure}
use per_user_container_opera.Api.App.{PerUserApp}
use per_user_container_opera.Cluster.{
  Client, M, ◌>>=◌, ◌>>◌, pure, emit, send_status_patch, start_failed,
}

abbrev pub admission_base_backoff : ℕ
admission_base_backoff = 5 * second

-- `d / 2` on an int64: towards zero.
abbrev pub half : Duration → Duration
half (pos n) = pos (n / 2)
half (negsuc n) = sub_ℕ 0 (suc n / 2)

abbrev pub at_most : Duration → Duration → Duration
at_most d backoff_max = if ltb_ℤ backoff_max d then backoff_max else d

-- The loop of `backoffDuration`, `rounds` being what is left of it.
double_up : ℕ → Duration → Duration → Duration
double_up zero d backoff_max = at_most d backoff_max
double_up (suc rounds) d backoff_max = elim (ltb_ℤ (half backoff_max) d) [
  | true ↦ backoff_max
  | false ↦ double_up rounds (wrap64 (d *ℤ pos 2)) backoff_max
]

unfoldable pub backoff_duration : ℤ → Duration → Duration
unfolding double_up
backoff_duration failures backoff_max =
    double_up (pos_part failures - 1) (pos admission_base_backoff) backoff_max

double_pos : (n : ℕ) → pos n *ℤ pos 2 ≡ pos (n * 2)
unfolding ◌*ℤ◌
double_pos n = ground arith

one-le-pow : (r : ℕ) → 1 ≤ 2 ^ r
one-le-pow zero = omega arith
one-le-pow (suc r) = rw (pow-suc 2 r) (omega (arith, one-le-pow r))

double-le : (n k : ℕ) → 1 ≤ k → n * 2 ≤ n * (k * 2)
double-le n k h = grind arith

-- Once the backoff is over half of the bound, every further doubling is over the bound.
at_most_over :
    (m : Duration) (n k : ℕ) → ltb_ℤ (half m) (pos n) ≡ true → n * 2 ≤ k → at_most (pos k) m ≡ m
at_most_over (pos m) n k e h = ground arith
at_most_over (negsuc m) n k e h = ground arith

-- Up to half of the bound, a doubling does not wrap.
double_fits :
    (m : Duration) (n : ℕ) → IsInt64 m → ltb_ℤ (half m) (pos n) ≡ false → IsInt64 (pos (n * 2))
double_fits (pos m) n b e = ground arith
double_fits (negsuc m) n b e = ground arith

double_up_lem :
    (rounds n : ℕ) (m : Duration)
    → 0 < n
    → IsInt64 m
    → double_up rounds (pos n) m ≡ at_most (pos (n * 2 ^ rounds)) m
unfolding double_up
double_up_lem zero n m h b = ap (λ (k : ℕ). at_most (pos k) m) (omega arith)
double_up_lem (suc r) n m h b =
    let grows : n * 2 * 2 ^ r ≡ n * 2 ^ suc r = rw (pow-suc 2 r) (omega arith) in
    elim (Bool-cases (ltb_ℤ (half m) (pos n))) [
      | inl e ↦
          rw (e, double_up)
            (sym (
              at_most_over m n (n * 2 ^ suc r) e
                (rw (pow-suc 2 r) (double-le n (2 ^ r) (one-le-pow r)))))
      | inr e ↦
          rw (e, double_up, double_pos n, wrap64_of_IsInt64 (pos (n * 2)) (double_fits m n b e))
            (double_up_lem r (n * 2) m (omega arith) b ∙ ap (λ (k : ℕ). at_most (pos k) m) grows)
    ]

-- The backoff after a number of consecutive failures is 5 seconds, doubled for each failure after
-- the first, and at most the bound, whatever the bound and however many failures: no doubling
-- wraps, and a count below 1 counts as 1.
pub backoff_duration_lem :
    (failures : ℤ) (backoff_max : Duration)
    → IsInt64 backoff_max
    → backoff_duration failures backoff_max
      ≡ at_most (pos (admission_base_backoff * 2 ^ (pos_part failures - 1))) backoff_max
unfolding backoff_duration
backoff_duration_lem failures m b =
    double_up_lem (pos_part failures - 1) admission_base_backoff m (omega arith) b

-- `RecordStartFailure`: the workspace as the caller keeps it.
abbrev pub failed_start : Time → Workspace → PerUserApp → Workspace
failed_start now ws app =
    let failures = wrap32 (ws.status.consecutive_failures +ℤ pos 1) in
    record ws {
      status = record (ws.status) {
        consecutive_failures = failures;
        backoff_until =
            some (time_add now (backoff_duration failures app.spec.lifecycle.backoff_max));
      };
    }

unfoldable pub record_start_failure :
    (c : Client) → Time → Workspace → PerUserApp → StartFailure → M c.Server Workspace
record_start_failure c now ws app reason = do
  reply ← send_status_patch c ws (failed_start now ws app)
  emit (start_failed ws.key.namespace app.key.name reason)
  pure (record ws {
    resource_version = reply.resource_version;
    status = record (ws.status) {
      consecutive_failures = reply.status.consecutive_failures;
      backoff_until = reply.status.backoff_until;
    };
  })
