-- ===== src/Startup/Leader.antt =====
-- cmd/controller.go: what a new leader makes of the Lease that it read before it contended for it.
use per_user_container_opera.Common.{
  ◌≡◌, ◌≢◌, ◌↔◌, refl, All, arith, Bool, true, false, Option, none, some, [], ◌∷◌, ◌++◌, Text,
  codes, Time, Duration, pos, time_sub, if◌then◌else◌, Result, ok, err, is_not_found,
}
use per_user_container_opera.Rendering.Validate.{has_prefix}

-- The holder and the time of renewal of a Lease, as far as they are set.
pub record Lease : Type 0 where
  pub holder_identity : Option Text
  pub renew_time : Option Time

pub record LeaseSnapshot : Type 0 where
  pub found : Bool
  pub holder_identity : Text
  pub renew_time : Time

abbrev pub or_zero {ℓ} : {A : Type ℓ} → Option A → A → A
or_zero none zero = zero
or_zero (some a) zero = a

-- From what reading the Lease answers; `zero_time` is Go's zero `time.Time`.
unfoldable pub snapshot_lease : Time → Result Lease → Result LeaseSnapshot
snapshot_lease zero_time (ok lease) = ok (record {
  found = true;
  holder_identity = or_zero lease.holder_identity [];
  renew_time = or_zero lease.renew_time zero_time;
})
snapshot_lease zero_time (err e) =
    if is_not_found e
    then ok (record { found = false; holder_identity = []; renew_time = zero_time })
    else err e

unfoldable pub lease_is_same_holder : Text → Text → Bool
unfolding has_prefix
lease_is_same_holder holder_identity pod_name = has_prefix (pod_name ++ codes "_") holder_identity

unfoldable pub compute_leaderless : Time → LeaseSnapshot → Text → Duration
unfolding lease_is_same_holder
compute_leaderless now snap pod_name =
    if snap.found
    then if lease_is_same_holder snap.holder_identity pod_name
      then pos 0
      else time_sub now snap.renew_time
    else pos 0

abbrev pub NoUnderscore : Text → Type 0
NoUnderscore s = All (λ b. b ≢ b'_') s

-- An identity of leader election is the name of a pod, an underscore and what tells its processes
-- apart. Another process is taken for the same holder exactly if it is of the pod of that name, if no
-- underscore is in the names, as none is in a pod's.
lease_is_same_holder_iff :
    (holder pod process : Text)
    → NoUnderscore holder
    → NoUnderscore pod
    → (lease_is_same_holder (holder ++ (b'_' ∷ process)) pod ≡ true) ↔ (holder ≡ pod)
unfolding lease_is_same_holder has_prefix
lease_is_same_holder_iff [] [] process h k = (λ e. refl, λ e. refl)
lease_is_same_holder_iff [] (b ∷ pod) process h k = ground (arith, k.0)
lease_is_same_holder_iff (a ∷ holder) [] process h k = ground (arith, h.0)
lease_is_same_holder_iff (a ∷ holder) (b ∷ pod) process h k =
    ground (arith, lease_is_same_holder_iff holder pod process h.1 k.1)
