-- ===== src/Cluster.antt =====
-- The Kubernetes API client (`client.Client` of controller-runtime) as an interface, and the calls
-- that the modelled code makes of it. The client is a parameter: nothing is assumed of what it
-- answers, and every call may change the server, so that an answer also stands for what other
-- processes did meanwhile. Each write is logged with its outcome, newest first, with the metrics
-- that the code counts (internal/metrics); what a crash leaves done is an end of the log.
pub mod Keeps
pub mod Delivers
pub mod Listed
use per_user_container_opera.Common.{
  ◌≡◌, refl, ◌⊎◌, inl, inr, Option, none, some, List, [], ◌∷◌, Text, Time, Duration, ℕ, ℤ, Result,
  ok, err, ApiError,
}
use per_user_container_opera.Api.Workspace.{Key, Workspace, Phase, StartFailure, ReapReason}
use per_user_container_opera.Api.App.{PerUserApp}
use per_user_container_opera.Api.Objects.{
  Claim, Volume, Deployment, Service, NetworkPolicy, Pod, Endpoint, ReclaimPolicy, RouterObject,
}

-- A write, as the code asks for it. A patch carries the object that it is the difference to.
pub data Request : Type 0 where
  update_workspace_status : Workspace → Request
  patch_workspace_status : Workspace → Workspace → Request
  update_workspace : Workspace → Request
  create_workspace : Workspace → Request
  delete_workspace : Key → Request
  create_claim : Claim → Request
  patch_claim : Claim → Claim → Request
  delete_claim : Key → Request
  patch_volume : Volume → Volume → Request
  create_deployment : Deployment → Request
  patch_deployment : Deployment → Deployment → Request
  create_service : Service → Request
  apply_policy : NetworkPolicy → Request
  create_or_update : RouterObject → Request
  patch_app_status : PerUserApp → PerUserApp → Request

-- The metrics of a reconcile, with the labels that the code gives them.
pub data Metric : Type 0 where
  reconcile_error : Text → Text → Text → Metric
  user_info : Text → Text → Text → Text → Metric
  user_info_deleted : Text → Text → Text → Text → Metric
  workspaces_by_phase : Text → Text → Phase → ℕ → Metric
  claims_total : Text → Text → ℕ → Metric
  workspace_start : Text → Text → Text → Metric
  start_seconds : Text → Text → Duration → Metric
  open_connections : Text → Text → Text → ℤ → Metric
  identity_rejection : Text → Text → Text → Metric
  request_rejection : Text → Text → Text → Metric
  router_request : Text → Text → ℕ → Metric

pub data Event : Type 0 where
  sent : Request → Option ApiError → Event
  workspace_reaped : Text → Text → ReapReason → Event
  start_failed : Text → Text → StartFailure → Event
  reaper_completed : Key → Time → Event
  measured : Metric → Event
  config_warning : Key → Text → Event

pub record Client : Type 1 where
  pub Server : Type 0
  pub list_apps : Server → Result (List PerUserApp) × Server
  pub get_workspace : Key → Server → Result Workspace × Server
  pub get_app : Key → Server → Result PerUserApp × Server
  pub list_workspaces : Text → Text → Server → Result (List Workspace) × Server
  pub list_all_workspaces : Server → Result (List Workspace) × Server
  pub get_claim : Key → Server → Result Claim × Server
  pub list_claims : Text → Text → Server → Result (List Claim) × Server
  pub list_user_claims : Text → Text → Text → Server → Result (List Claim) × Server
  pub list_pods : Text → Text → Text → Server → Result (List Pod) × Server
  pub get_volume : Text → Server → Result Volume × Server
  pub get_storage_class : Text → Server → Result (Option ReclaimPolicy) × Server
  pub get_deployment : Key → Server → Result Deployment × Server
  pub write : Request → Server → Result (Unit {0}) × Server
  pub get_cluster_ip : Key → Server → Result Text × Server
  pub list_endpoint_slices : Key → Server → Result (List (List Endpoint)) × Server
  pub create_user_workspace : Workspace → Server → Result Workspace × Server
  pub create_storage : Claim → Server → Result Claim × Server
  pub patch_storage : Claim → Claim → Server → Result Claim × Server
  pub patch_status : Workspace → Workspace → Server → Result Workspace × Server

pub record World (S : Type 0) : Type 0 where
  pub server : S
  pub log : List Event

-- A computation that may fail, over the server and the log.
abbrev pub M : Type 0 → Type 0 → Type 0
M S A = World S → Result A × World S

module _ {S A : Type 0} where
  abbrev pub pure : A → M S A
  pure a w = (ok a, w)

  abbrev pub fail : ApiError → M S A
  fail e w = (err e, w)

  abbrev pub then_step : {B : Type 0} → (A → M S B) → Result A × World S → Result B × World S
  then_step f (ok a, w) = f a w
  then_step f (err e, w) = (err e, w)

infixl 5 ◌>>=◌ ◌>>◌
abbrev pub ◌>>=◌ : {S A B : Type 0} → M S A → (A → M S B) → M S B
◌>>=◌ m f w = then_step f (m w)

abbrev pub ◌>>◌ : {S B : Type 0} → M S (Unit {0}) → M S B → M S B
m >> k = m >>= λ _. k

abbrev pub error_of : {A : Type 0} → Result A → Option ApiError
error_of (ok a) = none
error_of (err e) = some e

-- A call that only reads.
abbrev pub read : {S A : Type 0} → (S → Result A × S) → M S A
read f w = let (r, s) = f w.server in (r, record w { server = s })

abbrev pub emit : {S : Type 0} → Event → M S (Unit {0})
emit e w = (ok tt, record w { log = e ∷ w.log })

-- A write whose answer is not used.
unfoldable pub send : (c : Client) → Request → M c.Server (Unit {0})
send c q w =
    let (r, s) = c.write q w.server in (r, record { server = s; log = sent q (error_of r) ∷ w.log })

-- A patch of a status, which answers with the object as the server has it then.
unfoldable pub send_status_patch : (c : Client) → Workspace → Workspace → M c.Server Workspace
send_status_patch c base ws w =
    let (r, s) = c.patch_status base ws w.server in
    (r, record { server = s; log = sent (patch_workspace_status base ws) (error_of r) ∷ w.log })

-- The creation of a workspace, likewise.
unfoldable pub send_create_workspace : (c : Client) → Workspace → M c.Server Workspace
send_create_workspace c ws w =
    let (r, s) = c.create_user_workspace ws w.server in
    (r, record { server = s; log = sent (create_workspace ws) (error_of r) ∷ w.log })

-- The creation of a claim, and a patch of one, which answer with the object likewise.
unfoldable pub send_create_claim : (c : Client) → Claim → M c.Server Claim
send_create_claim c claim w =
    let (r, s) = c.create_storage claim w.server in
    (r, record { server = s; log = sent (create_claim claim) (error_of r) ∷ w.log })

unfoldable pub send_claim_patch : (c : Client) → Claim → Claim → M c.Server Claim
send_claim_patch c base claim w =
    let (r, s) = c.patch_storage base claim w.server in
    (r, record { server = s; log = sent (patch_claim base claim) (error_of r) ∷ w.log })

-- The writes that a log holds, newest first.
abbrev pub requests : List Event → List Request
requests [] = []
requests (sent q o ∷ l) = q ∷ requests l
requests (workspace_reaped ns app r ∷ l) = requests l
requests (start_failed ns app r ∷ l) = requests l
requests (reaper_completed k t ∷ l) = requests l
requests (measured m ∷ l) = requests l
requests (config_warning k t ∷ l) = requests l

-- To split on an answer and keep the equation.
pub answer-cases :
    {A S : Type 0} (r : Result A × S)
    → ((a : A) × (s : S) × (r ≡ (ok a, s))) ⊎ ((e : ApiError) × (s : S) × (r ≡ (err e, s)))
answer-cases (ok a, s) = inl (a, s, refl)
answer-cases (err e, s) = inr (e, s, refl)

-- The outcomes of a write.
pub send-cases :
    (c : Client) (q : Request) (w : World c.Server)
    → ((s : c.Server) × (send c q w ≡ (ok tt, record { server = s; log = sent q none ∷ w.log })))
      ⊎ ((e : ApiError) × (s : c.Server) × (send c q w
            ≡ (err e, record { server = s; log = sent q (some e) ∷ w.log })))
unfolding send
send-cases c q w = elim (answer-cases (c.write q w.server)) [
  | inl (u, s, e) ↦ inl (s, rw e refl)
  | inr (d, s, e) ↦ inr (d, s, rw e refl)
]
