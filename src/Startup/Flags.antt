-- ===== src/Startup/Flags.antt =====
-- cmd/main.go, run and parseRouterFlags, with Go's `flag` package as far as it goes for flags that take
-- a value. How a number or a duration is read, the files and POD_NAME are parameters.
use per_user_container_opera.Common.{
  Bool, true, false, not, ◌&&◌, ◌||◌, Option, none, some, List, [], ◌∷◌, ◌++◌, Text, codes, text_eq,
  ◌==◌, ℤ, pos, wrap32, Duration, if◌then◌else◌, all, Result, ok, err,
}
use per_user_container_opera.Router.Config.{Config, read_secret_file}
use per_user_container_opera.Rendering.Validate.{is_nil}

-- The values of the flags.
pub record Flags : Type 0 where
  pub app : Text
  pub namespace : Text
  pub identity_header : Text
  pub identity_max_length : ℤ
  pub shared_paths : List Text
  pub caller_auth_header : Text
  pub caller_auth_scheme : Text
  pub caller_auth_secret_file : Text
  pub upstream_auth_header : Text
  pub upstream_auth_scheme : Text
  pub upstream_auth_secret_file : Text
  pub workspace_port : ℤ
  pub cold_start_hold : Duration
  pub connection_heartbeat : Duration
  pub max_workspaces : ℤ
  pub listen_addr : Text
  pub metrics_addr : Text

abbrev pub prepend : Text × Option Text → Text → Text × Option Text
prepend (n, v) s = (s ++ n, v)

unfoldable pub split_equals : Text → Text × Option Text
split_equals [] = ([], none)
split_equals (b ∷ s) = elim (b == b'=') [
  | true ↦ ([], some s)
  | false ↦ prepend (split_equals s) (b ∷ [])
]

-- An argument: a flag by its name, with its value if it has one; the end of the flags; or an error.
pub data Argument : Type 0 where
  named : Text → Option Text → Argument
  stop : Argument
  malformed : Argument

abbrev pub by_name : Text → Argument
by_name [] = malformed
by_name (b ∷ s) =
    if b == b'-' || b == b'='
    then malformed
    else named (split_equals (b ∷ s)).0 (split_equals (b ∷ s)).1

unfoldable pub argument : Text → Argument
unfolding split_equals
argument [] = stop
argument (a ∷ []) = stop
argument (a ∷ b ∷ s) =
    if a == b'-'
    then if b == b'-' then if is_nil s then stop else by_name s else by_name (b ∷ s)
    else stop

abbrev pub and_then {ℓ κ} : {A : Type ℓ} {B : Type κ} → Option A → (A → Option B) → Option B
and_then none f = none
and_then (some a) f = f a

abbrev pub value_of {ℓ} : {A : Type ℓ} → Result A → Option A
value_of (ok a) = some a
value_of (err e) = none

-- `strings.HasPrefix(p, "/")`.
abbrev pub is_absolute : Text → Bool
is_absolute [] = false
is_absolute (b ∷ s) = b == b'/'

-- The checks of what is required.
abbrev pub is_complete : Flags → Bool
is_complete fl =
    not (is_nil fl.app || is_nil fl.namespace)
    && not (is_nil fl.identity_header)
    && not (is_nil fl.caller_auth_header || is_nil fl.caller_auth_secret_file)
    && all is_absolute fl.shared_paths

-- `set n v` is `Set` of the flag named `n`, if there is one.
module _ {F : Type 0} (set : Text → Text → F → Option F) where
  -- `fs.Parse`; a flag may be waiting for its value.
  unfoldable pub parse_all : Option Text → List Text → F → Option F
  parse_all none [] fl = some fl
  parse_all (some n) [] fl = none
  parse_all none (a ∷ rest) fl = elim (argument a) [
    | named n v ↦ elim v [
      | some value ↦ and_then (set n value fl) (parse_all none rest)
      | none ↦ parse_all (some n) rest fl
    ]
    | stop ↦ some fl
    | malformed ↦ none
  ]
  parse_all (some n) (a ∷ rest) fl = and_then (set n a fl) (parse_all none rest)

module _ (parse_int : Text → Option ℤ) (parse_duration : Text → Option Duration) where
  -- `Set` of the flag of that name, if there is one.
  unfoldable pub set_flag : Text → Text → Flags → Option Flags
  set_flag n v fl =
      if text_eq n (codes "app")
      then some (record fl { app = v })
      else if text_eq n (codes "namespace")
      then some (record fl { namespace = v })
      else if text_eq n (codes "identity-header")
      then some (record fl { identity_header = v })
      else if text_eq n (codes "identity-max-length")
      then and_then (parse_int v) (λ z. some (record fl { identity_max_length = z }))
      else if text_eq n (codes "shared-path")
      then some (record fl { shared_paths = fl.shared_paths ++ (v ∷ []) })
      else if text_eq n (codes "caller-auth-header")
      then some (record fl { caller_auth_header = v })
      else if text_eq n (codes "caller-auth-scheme")
      then some (record fl { caller_auth_scheme = v })
      else if text_eq n (codes "caller-auth-secret-file")
      then some (record fl { caller_auth_secret_file = v })
      else if text_eq n (codes "upstream-auth-header")
      then some (record fl { upstream_auth_header = v })
      else if text_eq n (codes "upstream-auth-scheme")
      then some (record fl { upstream_auth_scheme = v })
      else if text_eq n (codes "upstream-auth-secret-file")
      then some (record fl { upstream_auth_secret_file = v })
      else if text_eq n (codes "workspace-port")
      then and_then (parse_int v) (λ z. some (record fl { workspace_port = z }))
      else if text_eq n (codes "cold-start-hold")
      then and_then (parse_duration v) (λ d. some (record fl { cold_start_hold = d }))
      else if text_eq n (codes "connection-heartbeat")
      then and_then (parse_duration v) (λ d. some (record fl { connection_heartbeat = d }))
      else if text_eq n (codes "max-workspaces")
      then and_then (parse_int v) (λ z. some (record fl { max_workspaces = z }))
      else if text_eq n (codes "listen-addr")
      then some (record fl { listen_addr = v })
      else if text_eq n (codes "metrics-addr")
      then some (record fl { metrics_addr = v })
      else none

  abbrev pub parse : Option Text → List Text → Flags → Option Flags
  parse = parse_all set_flag

  module _ (print_int : ℤ → Text) (read_file : Text → Result Text) (pod_name : Text) where
    abbrev pub default_flags : Flags
    default_flags = record {
      app = [];
      namespace = [];
      identity_header = [];
      identity_max_length = pos 256;
      shared_paths = [];
      caller_auth_header = [];
      caller_auth_scheme = [];
      caller_auth_secret_file = [];
      upstream_auth_header = [];
      upstream_auth_scheme = [];
      upstream_auth_secret_file = [];
      workspace_port = pos 0;
      cold_start_hold = pos 0;
      connection_heartbeat = pos 0;
      max_workspaces = pos 0;
      listen_addr = codes ":" ++ print_int (pos 8080);
      metrics_addr = codes ":" ++ print_int (pos 9090);
    }

    abbrev pub contents : Text → Option Text
    contents file = value_of (read_secret_file (read_file file))

    abbrev pub config_of : Flags → Text → Config
    config_of fl secret = record {
      app = fl.app;
      namespace = fl.namespace;
      identity_header = fl.identity_header;
      identity_max_length = fl.identity_max_length;
      shared_paths = fl.shared_paths;
      caller_auth_header = fl.caller_auth_header;
      caller_auth_scheme = fl.caller_auth_scheme;
      caller_auth_secret = secret;
      upstream_auth_header = [];
      upstream_auth_scheme = [];
      upstream_auth_secret = [];
      workspace_port = wrap32 fl.workspace_port;
      cold_start_hold = fl.cold_start_hold;
      connection_heartbeat_interval = fl.connection_heartbeat;
      max_workspaces = wrap32 fl.max_workspaces;
      pod_name = pod_name;
    }

    abbrev pub with_upstream : Flags → Config → Option Config
    with_upstream fl cfg =
        if is_nil fl.upstream_auth_header
        then some cfg
        else if is_nil fl.upstream_auth_secret_file
        then none
        else and_then (contents fl.upstream_auth_secret_file) (λ secret. some (record cfg {
          upstream_auth_header = fl.upstream_auth_header;
          upstream_auth_scheme = fl.upstream_auth_scheme;
          upstream_auth_secret = secret;
        }))

    abbrev pub configure : Flags → Option Config
    configure fl =
        if is_complete fl
        then and_then (contents fl.caller_auth_secret_file)
            (λ secret. with_upstream fl (config_of fl secret))
        else none

    unfoldable pub parse_router_flags : List Text → Option Config
    unfolding parse_all set_flag argument
    parse_router_flags args = and_then (parse none args default_flags) configure

    -- `run` of a binary's arguments, as far as it is the router that is started.
    abbrev pub run_router : List Text → Option Config
    run_router [] = none
    run_router (sub ∷ args) = if text_eq sub (codes "router") then parse_router_flags args else none
