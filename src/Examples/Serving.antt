-- ===== src/Examples/Serving.antt =====
-- The theorems on a request's way through the router at concrete inputs.
use per_user_container_opera.Common.{
  ℕ, ◌↔◌, ◌⊎◌, ◌≡◌, ◌≢◌, refl, sym, ap, inr, true, false, none, [], ◌∷◌, Text, codes, text_eq, ℤ,
  pos, if◌then◌else◌, All, ok, err, conflict, arith, Result, ◌+ℤ◌,
}
use per_user_container_opera.Api.Workspace.{Workspace, Key, ready}
use per_user_container_opera.Cluster.{Client, World, requests, send_status_patch}
use per_user_container_opera.Identity.Extract.{
  Header, identity, missing, extract, extract_values, extract_value, is_blank, space1, space2,
  space3, shared,
}
use per_user_container_opera.Identity.UserKey.{user_key}
use per_user_container_opera.Router.Config.{Config, Request}
use per_user_container_opera.Router.Auth.{
  check_caller_auth, check_values, credential, after_prefix, shared_request, check_caller_auth_iff,
}
use per_user_container_opera.Router.Headers.{
  apply_header_policy, apply_header_policy_lem, is_upgrade_request, header_contains_token,
  split_commas, trim_left, trim_right, equal_fold, code,
}
use per_user_container_opera.Router.Connections.{
  count_of, touch_activity, note_activity, publish, open_connection, close_connection,
}
use per_user_container_opera.Router.Resolver.{resolve, fill, has_endpoints}
use per_user_container_opera.Router.Ensure.{
  classify, ensure_enqueued_at, ensure_workspace, is_servable, workspace_key,
}
use per_user_container_opera.Router.Serve.{
  Router, Outcome, forwarded, unsettled, Clock, identify, decide, proxy, serve,
}
use per_user_container_opera.Router.Serve.Refused.{IsRefused, serve-IsRefused}
use per_user_container_opera.Identity.Extract.Laws.{IsTrusted}
use per_user_container_opera.Router.Serve.Identified.{identify_iff}
use per_user_container_opera.Router.Serve.Own.{IsNamed, IsUserWrite}
use per_user_container_opera.Router.Serve.Isolation.{serve-IsOwn, serve-IsUserWrite, answered}
use per_user_container_opera.Router.Serve.Settled.{serve-settled}
use per_user_container_opera.Router.Serve.Leak.{still_counted, proxy-count}
use per_user_container_opera.Examples.Data.{at, workspace, steady}

abbrev config : Config
config = record {
  app = codes "ide";
  namespace = codes "dev";
  identity_header = codes "X-User";
  identity_max_length = pos 64;
  shared_paths = codes "/icon" ∷ [];
  caller_auth_header = codes "Authorization";
  caller_auth_scheme = codes "Bearer";
  caller_auth_secret = codes "open";
  upstream_auth_header = [];
  upstream_auth_scheme = [];
  upstream_auth_secret = [];
  workspace_port = pos 8080;
  cold_start_hold = at 30;
  connection_heartbeat_interval = at 15;
  max_workspaces = pos 10;
  pod_name = codes "r-1";
}

-- An authenticated upgrade by Ann.
abbrev headers : Header
headers n =
    if text_eq n (codes "Authorization")
    then codes "Bearer open" ∷ []
    else if text_eq n (codes "X-User")
    then codes "ann" ∷ []
    else if text_eq n (codes "Upgrade")
    then codes "websocket" ∷ []
    else if text_eq n (codes "Connection")
    then codes "keep-alive, Upgrade" ∷ []
    else []

abbrev request : Request
request = record { method = codes "GET"; path = codes "/"; header = headers }

-- The same without an identity.
abbrev nobody : Request
nobody = record request { header = λ n. if text_eq n (codes "X-User") then [] else headers n }

-- Every Workspace is ready and has an endpoint.
abbrev server : Client
server = record (steady [] [] []) {
  get_workspace = λ k s. (ok (record (workspace (codes "u-1") ready) { key = k }), s);
  list_endpoint_slices =
      λ k s. (ok ((record { addresses = codes "10.1.0.4" ∷ []; ready = none } ∷ []) ∷ []), s);
}

abbrev key_of : Result Workspace → Key
key_of (ok ws) = ws.key
key_of (err e) = record { namespace = []; name = [] }

server-IsNamed : IsNamed server
server-IsNamed = record {
  of_get = λ k s t ws e. ap (λ (r : Result Workspace × Unit {0}). key_of r.0) (sym e);
  of_create = λ v s t ws e. ap (λ (r : Result Workspace × Unit {0}). key_of r.0) (sym e);
  of_patch = λ base v s t ws e. ap (λ (r : Result Workspace × Unit {0}). key_of r.0) (sym e);
}

abbrev clock : Clock
clock = record {
  enqueue_at = at 200;
  classify_at = at 200;
  wake_at = at 200;
  hold_start = at 200;
  readings = λ n. at 230;
  cancelled = λ n. false;
  touch_at = at 201;
  open_at = at 201;
  close_at = at 300;
}

abbrev idle_router : Router
idle_router = record { cache = λ k. none; counts = [] }

abbrev upstream : Text → Request → Unit {0} → ℕ × Unit {0}
upstream addr r s = (101, s)

abbrev fold_none : Text → Text
fold_none n = n

abbrev join : Text → ℤ → Text
join host port = host

abbrev out : Request
out = record request { header = apply_header_policy fold_none headers config }

abbrev run : Router → Request → World (Unit {0}) → Router × Outcome × World (Unit {0})
run router r w = serve server fold_none fold_none join upstream config clock 1 router r w

-- Ann's request is sent on, and counts as 101.
is_sent :
    (run idle_router request (record { server = tt; log = [] })).1
    ≡ forwarded (codes "10.0.0.7") out 101
unfolding serve check_caller_auth check_values credential after_prefix text_eq identify
    shared_request extract extract_values extract_value is_blank space1 space2 space3 decide
    ensure_workspace ensure_enqueued_at classify is_servable has_endpoints touch_activity
    note_activity proxy resolve is_upgrade_request header_contains_token split_commas trim_left
    trim_right equal_fold open_connection close_connection publish send_status_patch code
is_sent = refl

is_ann : identify config request ≡ identity (codes "ann")
unfolding identify shared_request extract is_blank text_eq
is_ann = refl

serve-IsOwn_example :
    (check_caller_auth config headers ≡ true)
    × (out ≡ record request { header = apply_header_policy fold_none headers config })
    × ((v : World (Unit {0})) × ((resolve server join idle_router.cache
            (workspace_key config (user_key fold_none (codes "dev") (codes "ide") (codes "ann")))
            (pos 8080)
            v).1
          ≡ ok (codes "10.0.0.7")))
serve-IsOwn_example =
    serve-IsOwn server server-IsNamed fold_none fold_none join upstream config clock 1 idle_router
      request (codes "ann") tt (codes "10.0.0.7") out 101 is_ann is_sent

serve-IsUserWrite_example :
    All
      (IsUserWrite config
        (codes "ann")
        (user_key fold_none (codes "dev") (codes "ide") (codes "ann")))
      (requests
        (answered server server-IsNamed fold_none fold_none join upstream config clock 1 idle_router
          request
          (record { server = tt; log = [] })).2.log)
serve-IsUserWrite_example =
    serve-IsUserWrite server server-IsNamed fold_none fold_none join upstream config clock 1
      idle_router request (codes "ann") tt is_ann

serve-IsRefused_example :
    IsRefused server fold_none fold_none join upstream config clock 1 idle_router
      (record { server = tt; log = [] })
      (run idle_router nobody (record { server = tt; log = [] }))
unfolding identify shared_request extract text_eq
serve-IsRefused_example =
    serve-IsRefused server fold_none fold_none join upstream config clock 1 idle_router nobody
      (record { server = tt; log = [] }) (inr (record { reason = missing; status = 401 }, refl))

abbrev icon_request : Request
icon_request = record nobody { path = codes "/icon" }

identify_iff_example : (identify config icon_request ≡ identity shared) ↔ (
    ((icon_request.header config.identity_header ≡ shared ∷ [])
      × IsTrusted config.identity_max_length shared)
    ⊎ ((icon_request.header config.identity_header ≡ [])
        × (shared_request config icon_request ≡ true)
        × (shared ≡ shared)))
identify_iff_example = identify_iff config icon_request shared

serve-settled_example : (run idle_router request (record { server = tt; log = [] })).1 ≢ unsettled
unfolding ◌+ℤ◌
serve-settled_example =
    serve-settled server fold_none fold_none join upstream config clock 1 0 refl (omega arith)
      idle_router request (record { server = tt; log = [] })

-- A server that takes no patch of a status.
abbrev stubborn : Client
stubborn = record server { patch_status = λ base ws s. (err conflict, s) }

abbrev anns : Workspace
anns = record (workspace (codes "u-1") ready) {
  key = workspace_key config (user_key fold_none (codes "dev") (codes "ide") (codes "ann"));
}

-- Ann's count stays at 1.
proxy-count_example :
    count_of
      (proxy stubborn fold_none join upstream config clock request idle_router anns
        (record { server = tt; log = [] })).0.counts
      anns.key
    ≡ still_counted
        (open_connection stubborn
          (codes "ide")
          (codes "r-1")
          (at 201)
          []
          anns.key
          (record { server = tt; log = [] })).1
        0
unfolding is_upgrade_request text_eq split_commas trim_left trim_right equal_fold count_of resolve
proxy-count_example =
    proxy-count stubborn fold_none join upstream config clock request idle_router anns 0
      (fill (λ k. none) anns.key (codes "10.0.0.7")) (codes "10.0.0.7")
      (record { server = tt; log = [] }) (record { server = tt; log = [] }) refl refl refl
      (omega arith)

check_caller_auth_iff_example :
    (check_caller_auth config headers ≡ true)
    ↔ ((codes "open" ≢ []) × (headers (codes "Authorization") ≡ codes "Bearer open" ∷ []))
check_caller_auth_iff_example = check_caller_auth_iff config headers

apply_header_policy_lem_example :
    apply_header_policy fold_none headers config (codes "Authorization") ≡ []
unfolding text_eq
apply_header_policy_lem_example =
    apply_header_policy_lem fold_none headers config (codes "Authorization")
