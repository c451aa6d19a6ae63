-- ===== src/Startup/Reading.antt =====
-- How the router (cmd/main.go) reads the arguments that the controller renders
-- (internal/controller/render.go).
use per_user_container_opera.Common.{
  ◌≡◌, ◌≢◌, refl, sym, ap, ◌∙◌, true, Option, none, some, List, [], ◌∷◌, ◌++◌, Text, codes, text_eq,
  ℤ, pos, negsuc, ◌*ℤ◌, second, Duration, IsInt32, IsInt64, all, arith,
}
use mathlib.Core.List.{append_assoc, append-nil}
use per_user_container_opera.Api.App.{PerUserApp, SecretHeaderRef}
use per_user_container_opera.Rendering.Arguments.{
  caller_auth_file, upstream_auth_file, hold_of, upstream_arguments, shared_path_arguments,
  later_arguments,
}
use per_user_container_opera.Startup.Flags.{
  Flags, argument, split_equals, set_flag, parse_all, parse, is_absolute,
}

-- What the CRD demands of the fields that are rendered, and that the numbers are int32 and the
-- durations int64.
pub record IsRenderable (app : PerUserApp) : Type 0 where
  pub name : app.key.name ≢ []
  pub namespace : app.key.namespace ≢ []
  pub identity_header : app.spec.identity.header ≢ []
  pub shared_paths : all is_absolute app.spec.router.shared_paths ≡ true
  pub max_length : IsInt32 app.spec.identity.max_length
  pub port : IsInt32 app.spec.workspace.port
  pub max_workspaces : IsInt32 app.spec.limits.max_workspaces
  pub hold : IsInt32 app.spec.router.cold_start_hold_seconds
  pub heartbeat : IsInt64 app.spec.lifecycle.connection_heartbeat_interval

hold_of-IsInt64 : (n : ℤ) → IsInt32 n → IsInt64 (n *ℤ pos second)
unfolding ◌*ℤ◌
hold_of-IsInt64 (pos n) h = ground arith
hold_of-IsInt64 (negsuc n) h = ground arith

-- Reading is the inverse of printing (`strconv`, `time`).
module _ (print_int : ℤ → Text) (print_duration : Duration → Text) (parse_int : Text → Option ℤ)
    (parse_duration : Text → Option Duration)
    (int_read : (z : ℤ) → IsInt32 z → parse_int (print_int z) ≡ some z)
    (duration_read : (d : Duration) → IsInt64 d → parse_duration (print_duration d) ≡ some d) where
  abbrev pub read_flags : List Text → Flags → Option Flags
  read_flags args fl = parse parse_int parse_duration none args fl

  shared_paths-read :
      (paths rest : List Text) (fl : Flags)
      → read_flags (shared_path_arguments print_int print_duration paths ++ rest) fl
        ≡ read_flags rest (record fl { shared_paths = fl.shared_paths ++ paths })
  unfolding parse_all argument split_equals set_flag text_eq
  shared_paths-read [] rest fl =
      ap (λ (l : List Text). read_flags rest (record fl { shared_paths = l }))
        (sym (append-nil fl.shared_paths))
  shared_paths-read (p ∷ paths) rest fl =
      shared_paths-read paths rest (record fl { shared_paths = fl.shared_paths ++ (p ∷ []) })
      ∙ ap (λ (l : List Text). read_flags rest (record fl { shared_paths = l }))
          (append_assoc fl.shared_paths (p ∷ []) paths)

  unfoldable pub with_later : PerUserApp → Flags → Flags
  with_later app fl = record fl {
    caller_auth_secret_file = caller_auth_file;
    workspace_port = app.spec.workspace.port;
    cold_start_hold = hold_of app;
    connection_heartbeat = app.spec.lifecycle.connection_heartbeat_interval;
    max_workspaces = app.spec.limits.max_workspaces;
    listen_addr = codes ":" ++ print_int (pos 8080);
    metrics_addr = codes ":" ++ print_int (pos 9090);
    shared_paths = fl.shared_paths ++ app.spec.router.shared_paths;
  }

  pub later-read :
      (app : PerUserApp) (fl : Flags)
      → IsRenderable app
      → read_flags (later_arguments print_int print_duration app) fl
        ≡ read_flags
            (upstream_arguments print_int print_duration app.spec.workspace.upstream_auth)
            (with_later app fl)
  unfolding parse_all argument split_equals set_flag text_eq with_later
  later-read app fl r = rw (int_read app.spec.workspace.port r.port) (
      rw
        (duration_read (hold_of app)
          (hold_of-IsInt64 app.spec.router.cold_start_hold_seconds r.hold))
        (rw (duration_read app.spec.lifecycle.connection_heartbeat_interval r.heartbeat) (
          rw (int_read app.spec.limits.max_workspaces r.max_workspaces) (
            shared_paths-read app.spec.router.shared_paths
              (upstream_arguments print_int print_duration app.spec.workspace.upstream_auth) _))))

  -- The three flags of an upstream credential.
  abbrev pub with_credential : Option SecretHeaderRef → Flags → Flags
  with_credential none fl = fl
  with_credential (some ua) fl = record fl {
    upstream_auth_header = ua.header;
    upstream_auth_scheme = ua.scheme;
    upstream_auth_secret_file = upstream_auth_file;
  }

  pub upstream-read :
      (o : Option SecretHeaderRef) (fl : Flags)
      → fl.upstream_auth_scheme ≡ []
      → read_flags (upstream_arguments print_int print_duration o) fl ≡ some (with_credential o fl)
  unfolding parse_all argument split_equals set_flag text_eq
  upstream-read none fl e = refl
  upstream-read (some ua) fl e = by_scheme ua.scheme
    where
      by_scheme :
          (scheme : Text)
          → read_flags
              (upstream_arguments print_int print_duration (some (record ua { scheme = scheme })))
              fl
            ≡ some (with_credential (some (record ua { scheme = scheme })) fl)
      by_scheme [] =
          ap
            (λ (l : Text). some (record fl {
              upstream_auth_header = ua.header;
              upstream_auth_scheme = l;
              upstream_auth_secret_file = upstream_auth_file;
            }))
            e
      by_scheme (a ∷ s) = refl
