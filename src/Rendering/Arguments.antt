-- ===== src/Rendering/Arguments.antt =====
-- internal/controller/render.go, RenderRouterDeployment: the arguments of a router's container. How
-- numbers and durations are printed is a parameter.
use per_user_container_opera.Common.{
  Option, none, some, List, [], ◌∷◌, ◌++◌, Text, codes, ℤ, pos, ◌*ℤ◌, second, Duration,
  if◌then◌else◌,
}
use per_user_container_opera.Api.App.{PerUserApp, SecretHeaderRef}
use per_user_container_opera.Rendering.Labels.{router_port, metrics_port}
use per_user_container_opera.Rendering.Validate.{is_nil}

abbrev pub caller_auth_file : Text
caller_auth_file = codes "/etc/puc/caller-auth/value"

abbrev pub upstream_auth_file : Text
upstream_auth_file = codes "/etc/puc/upstream-auth/value"

-- `--name=value`.
abbrev pub assign : Text → Text → Text
assign name value = codes "--" ++ (name ++ (codes "=" ++ value))

abbrev pub unless_empty : Text → Text → List Text
unless_empty name value = if is_nil value then [] else assign name value ∷ []

abbrev pub hold_of : PerUserApp → Duration
hold_of app = app.spec.router.cold_start_hold_seconds *ℤ pos second

module _ (print_int : ℤ → Text) (print_duration : Duration → Text) where
  abbrev pub upstream_arguments : Option SecretHeaderRef → List Text
  upstream_arguments none = []
  upstream_arguments (some ua) =
      assign (codes "upstream-auth-header") ua.header
        ∷ unless_empty (codes "upstream-auth-scheme") ua.scheme
      ++ (assign (codes "upstream-auth-secret-file") upstream_auth_file ∷ [])

  abbrev pub shared_path_arguments : List Text → List Text
  shared_path_arguments [] = []
  shared_path_arguments (p ∷ more) = assign (codes "shared-path") p ∷ shared_path_arguments more

  -- The arguments after the scheme.
  abbrev pub later_arguments : PerUserApp → List Text
  later_arguments app =
      assign (codes "caller-auth-secret-file") caller_auth_file
        ∷ assign (codes "workspace-port") (print_int app.spec.workspace.port)
        ∷ assign (codes "cold-start-hold") (print_duration (hold_of app))
        ∷ assign (codes "connection-heartbeat")
            (print_duration app.spec.lifecycle.connection_heartbeat_interval)
        ∷ assign (codes "max-workspaces") (print_int app.spec.limits.max_workspaces)
        ∷ assign (codes "listen-addr") (codes ":" ++ print_int router_port)
        ∷ assign (codes "metrics-addr") (codes ":" ++ print_int metrics_port)
        ∷ shared_path_arguments app.spec.router.shared_paths
      ++ upstream_arguments app.spec.workspace.upstream_auth

  unfoldable pub router_arguments : PerUserApp → List Text
  router_arguments app =
      codes "router"
        ∷ assign (codes "app") app.key.name
        ∷ assign (codes "namespace") app.key.namespace
        ∷ assign (codes "identity-header") app.spec.identity.header
        ∷ assign (codes "identity-max-length") (print_int app.spec.identity.max_length)
        ∷ assign (codes "caller-auth-header") app.spec.caller_auth.header
        ∷ unless_empty (codes "caller-auth-scheme") app.spec.caller_auth.scheme
      ++ later_arguments app
