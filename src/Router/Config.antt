-- ===== src/Router/Config.antt =====
-- internal/router/config.go and the request of net/http, as far as the router reads them.
use per_user_container_opera.Common.{
  List, [], ◌∷◌, Text, ℤ, ◌==◌, if◌then◌else◌, Duration, Result, ok, err,
}
use per_user_container_opera.Identity.Extract.{Header}

pub record Config : Type 0 where
  pub app : Text
  pub namespace : Text
  pub identity_header : Text
  pub identity_max_length : ℤ
  pub shared_paths : List Text
  pub caller_auth_header : Text
  pub caller_auth_scheme : Text
  pub caller_auth_secret : Text
  pub upstream_auth_header : Text
  pub upstream_auth_scheme : Text
  pub upstream_auth_secret : Text
  pub workspace_port : ℤ
  pub cold_start_hold : Duration
  pub connection_heartbeat_interval : Duration
  pub max_workspaces : ℤ
  pub pod_name : Text

-- `bytes.TrimRight(b, "\n")`.
unfoldable pub trim_newlines : Text → Text
trim_newlines [] = []
trim_newlines (b ∷ s) = elim (trim_newlines s) [
  | [] ↦ if b == b'\n' then [] else b ∷ []
  | a ∷ more ↦ b ∷ a ∷ more
]

-- `ReadSecretFile`, from what reading the file answers.
unfoldable pub read_secret_file : Result Text → Result Text
unfolding trim_newlines
read_secret_file (ok b) = ok (trim_newlines b)
read_secret_file (err e) = err e

pub record Request : Type 0 where
  pub method : Text
  pub path : Text
  pub header : Header
