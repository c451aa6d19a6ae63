-- ===== src/Startup/Contract.antt =====
-- The router's startup contract: what the controller renders as arguments
-- (internal/controller/render.go), and what the router reads from them (cmd/main.go).
use per_user_container_opera.Common.{
  ◌≡◌, Option, none, some, List, [], Text, ℤ, Duration, IsInt32, IsInt64, if◌then◌else◌, Result, ok,
  inr,
}
use per_user_container_opera.Api.App.{PerUserApp, SecretHeaderRef}
use per_user_container_opera.Router.Config.{Config, read_secret_file}
use per_user_container_opera.Rendering.Arguments.{caller_auth_file, upstream_auth_file, hold_of}
use per_user_container_opera.Rendering.Validate.{Warning, is_nil, validate_app}
use per_user_container_opera.Startup.Reading.{IsRenderable, read_flags, with_later, with_credential}
use per_user_container_opera.Startup.Flags.{
  Flags, default_flags, config_of, with_upstream, configure,
}

-- The upstream credential, for an app that has one with a header.
abbrev pub carried : Option SecretHeaderRef → Text → Config → Config
carried none secret cfg = cfg
carried (some ua) secret cfg = if is_nil ua.header then cfg else record cfg {
  upstream_auth_header = ua.header;
  upstream_auth_scheme = ua.scheme;
  upstream_auth_secret = secret;
}

-- The configuration that an app stands for, with the contents of its Secrets.
abbrev pub configuration : PerUserApp → Text → Text → Text → Config
configuration app secret upstream_secret pod_name =
    carried app.spec.workspace.upstream_auth upstream_secret (record {
      app = app.key.name;
      namespace = app.key.namespace;
      identity_header = app.spec.identity.header;
      identity_max_length = app.spec.identity.max_length;
      shared_paths = app.spec.router.shared_paths;
      caller_auth_header = app.spec.caller_auth.header;
      caller_auth_scheme = app.spec.caller_auth.scheme;
      caller_auth_secret = secret;
      upstream_auth_header = [];
      upstream_auth_scheme = [];
      upstream_auth_secret = [];
      workspace_port = app.spec.workspace.port;
      cold_start_hold = hold_of app;
      connection_heartbeat_interval = app.spec.lifecycle.connection_heartbeat_interval;
      max_workspaces = app.spec.limits.max_workspaces;
      pod_name = pod_name;
    })

abbrev with_upstream_auth : Option SecretHeaderRef → PerUserApp → PerUserApp
with_upstream_auth o app = record app {
  spec = record (app.spec) { workspace = record (app.spec.workspace) { upstream_auth = o } };
}

-- Reading is the inverse of printing (`strconv`, `time`).
module _ (print_int : ℤ → Text) (print_duration : Duration → Text) (parse_int : Text → Option ℤ)
    (parse_duration : Text → Option Duration)
    (int_read : (z : ℤ) → IsInt32 z → parse_int (print_int z) ≡ some z)
    (duration_read : (d : Duration) → IsInt64 d → parse_duration (print_duration d) ≡ some d) where
  abbrev reads : List Text → Flags → Option Flags
  reads = read_flags print_int print_duration parse_int parse_duration int_read duration_read

  abbrev credited : Option SecretHeaderRef → Flags → Flags
  credited =
      with_credential print_int print_duration parse_int parse_duration int_read duration_read

  module _ (read_file : Text → Result Text) (pod_name secret upstream_secret : Text)
      (app : PerUserApp) (r : IsRenderable app) (warnings : List Warning)
      (valid : validate_app app ≡ inr warnings) where
    abbrev first_flags : Flags
    first_flags = record (default_flags parse_int parse_duration print_int read_file pod_name) {
      app = app.key.name;
      namespace = app.key.namespace;
      identity_header = app.spec.identity.header;
      identity_max_length = app.spec.identity.max_length;
      caller_auth_header = app.spec.caller_auth.header;
      caller_auth_scheme = app.spec.caller_auth.scheme;
    }

    abbrev all_flags : Flags
    all_flags = credited app.spec.workspace.upstream_auth (
        with_later print_int print_duration parse_int parse_duration int_read duration_read app
          first_flags)

    with_scheme : Text → Flags
    with_scheme scheme = record first_flags { caller_auth_scheme = scheme }

    module _ (caller_file : read_secret_file (read_file caller_auth_file) ≡ ok secret)
        (upstream_file : (ua : SecretHeaderRef)
          → app.spec.workspace.upstream_auth ≡ some ua
          → read_secret_file (read_file upstream_auth_file) ≡ ok upstream_secret) where
      abbrev settle_flags : Flags → Option Config
      settle_flags fl = configure parse_int parse_duration print_int read_file pod_name fl

      abbrev config_with : Flags → Text → Config
      config_with fl t = config_of parse_int parse_duration print_int read_file pod_name fl t

      abbrev add_upstream : Flags → Config → Option Config
      add_upstream fl cfg =
          with_upstream parse_int parse_duration print_int read_file pod_name fl cfg

      abbrev base : Config
      base = configuration (with_upstream_auth none app) secret upstream_secret pod_name
