-- ===== src/Examples/Admitting.antt =====
-- The Admitter's theorems at concrete inputs.
use mathlib.Core.List.{Perm}
use per_user_container_opera.Common.{
  ◌≡◌, refl, true, false, ◌⊎◌, none, some, List, [], ◌∷◌, ◌++◌, codes, pos, ◌+ℤ◌, ◌-ℤ◌, ◌≤ℤ◌,
  sort_stable, insert_stable, text_eq, ◌*◌, ◌^◌, ◌-◌, All, keep, length, pos_part, arith,
}
use per_user_container_opera.Api.Workspace.{Workspace, pending, starting, key_eq}
use per_user_container_opera.Cluster.{Client, requests}
use per_user_container_opera.Admission.Queue.{
  earlier, is_pending, enqueue_key, occupied, front, has_turn,
}
use per_user_container_opera.Admission.Queue.Laws.{front_first, has_turn_limited}
use per_user_container_opera.Admission.Backoff.{
  admission_base_backoff, at_most, backoff_duration, backoff_duration_lem,
}
use per_user_container_opera.Admission.Lease.{
  on_lease_acquired, IsTakeover, on_lease_acquired-IsTakeover,
}
use per_user_container_opera.Examples.Data.{at, workspace, app, steady, status}

abbrev waiting : Workspace
waiting = workspace (codes "u-1") pending

abbrev launching : Workspace
launching = record waiting {
  key = record { namespace = codes "dev"; name = codes "ide-2" };
  status = record (status starting) { start_deadline = some (at 200) };
}

abbrev late : Workspace
late = record waiting {
  key = record { namespace = codes "dev"; name = codes "ide-3" };
  status = record (status pending) { enqueued_at = some (at 95) };
}

abbrev queue : List Workspace
queue = late ∷ launching ∷ waiting ∷ []

abbrev server : Client
server = steady [] queue []

-- One slot is free, and it goes to the workspace that has waited longer.
turns : (has_turn waiting (app none) queue ≡ true) × (has_turn late (app none) queue ≡ false)
unfolding has_turn front ◌-ℤ◌ sort_stable insert_stable enqueue_key key_eq text_eq
turns = (refl, refl)

front_first_example :
    (rest : List Workspace) × Perm (front (app none) queue ++ rest) (keep is_pending queue)
    × All (λ v. All (λ u. earlier u v ≡ false) rest) (front (app none) queue)
front_first_example = front_first (app none) queue

has_turn_limited_example :
    (length (keep (λ ws. has_turn ws (app none) queue) queue) ≡ 0)
    ⊎ (pos (length (keep (λ ws. has_turn ws (app none) queue) queue)) +ℤ pos (occupied queue)
        ≤ℤ pos 2)
unfolding key_eq text_eq
has_turn_limited_example =
    has_turn_limited (app none) queue ((refl, (refl, tt)), ((refl, tt), (tt, tt)))

backoff_duration_lem_example :
    backoff_duration (pos 4) (at 300)
    ≡ at_most (pos (admission_base_backoff * 2 ^ (pos_part (pos 4) - 1))) (at 300)
backoff_duration_lem_example = backoff_duration_lem (pos 4) (at 300) (omega arith)

on_lease_acquired-IsTakeover_example : All (IsTakeover server (λ k. at 100) (at 15)) (
    requests
      (on_lease_acquired server (λ k. at 100) (at 15) (record { server = tt; log = [] })).1.log)
on_lease_acquired-IsTakeover_example = on_lease_acquired-IsTakeover server (λ k. at 100) (at 15) tt
