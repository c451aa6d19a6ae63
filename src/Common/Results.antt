-- ===== src/Common/Results.antt =====
-- Outcomes of the Kubernetes client: the classes of `apierrors` that the source tells apart.
use mathlib.Core.Bool.{Bool, true, false}

pub data ApiError : Type 0 where
  not_found conflict already_exists other_error : ApiError

pub data Result {ℓ} (A : Type ℓ) : Type ℓ where
  ok : A → Result A
  err : ApiError → Result A

abbrev pub is_not_found : ApiError → Bool
is_not_found not_found = true
is_not_found _ = false

abbrev pub is_conflict : ApiError → Bool
is_conflict conflict = true
is_conflict _ = false

abbrev pub is_already_exists : ApiError → Bool
is_already_exists already_exists = true
is_already_exists _ = false
