-- ===== src/Lib.antt =====
-- per-user-container-operator: a Kubernetes operator that gives each user of an HTTP application a
-- container and a volume of their own.
--
-- The program. An app is a PerUserApp object (api/v1alpha1). A reconciler (internal/controller)
-- validates it and keeps what the app needs in the cluster: among it the Deployment of a router,
-- whose arguments are the router's configuration. The router (cmd, internal/router) receives the
-- app's requests, checks the caller's credential, takes the user's identity from a header
-- (internal/identity), creates and wakes that user's Workspace, holds the request until it can be
-- served, and sends it on. A second reconciler moves each Workspace through its phases, the Admitter
-- decides which may start, the Reaper scales idle ones to zero, and the Reclaimer deletes the least
-- recently used ones of an app that is over its target. The parts meet only in the Kubernetes API:
-- they read and write the same Workspace objects, and the order of their writes is what keeps a
-- user's data safe.
--
-- The files.
--   Common     shared names: tests, lists, integers and times, byte texts, the stable sort, results
--   Api        api/v1alpha1/constants.go, workspace_types.go and peruserapp_types.go as records and
--              data types; the fields of Kubernetes objects that the code uses
--   Cluster    controller-runtime's client as an interface, and the computations over it
--   Identity   internal/identity/identity.go (Extract) and userkey.go (UserKey, ChildName)
--   Reaper     internal/controller/reaper.go: Predicate (isReapable, freshConnectionCount), Pass
--              (ScaleDown, reapApp, Reap)
--   Reclaimer  internal/controller/reclaimer.go: Selection (isReclaimable, the cut of reclaimApp),
--              Deletion (reclaimWorkspace, releaseVolume, markReclaiming, reclaimOrphanedPVCs), Pass
--              (reclaimApp, Reclaim)
--   Admission  internal/controller/admission.go: Queue (TryAdmit), Backoff (backoffDuration,
--              RecordStartFailure), Lease (OnLeaseAcquired)
--   Reconciler internal/controller/workspace_controller.go: Storage (reconcilePVC), Children
--              (ensureDeployment and what is created beside it), Step and Phases (the phases),
--              Reconcile (Reconcile, reconcileDelete, refreshGauges), Writes (what it may write)
--   Rendering  internal/controller/render.go: Labels (names, labels and small objects), Policies (the
--              NetworkPolicies), Validate (ValidateApp), Seed (the script that fills a volume),
--              Arguments (the arguments of a router)
--   Apps       internal/controller/peruserapp_controller.go: one reconcile of an app
--   Router     internal/router: Config, Auth (checkCallerAuth, sharedRequest), Headers (proxy.go),
--              Resolver (resolve.go: the cache of addresses and its watches), Connections
--              (connections.go), Ensure (ensureWorkspace, classify, wake, coldStartHold) and Serve
--              (ServeHTTP, proxy) of server.go
--   Startup    cmd/main.go and cmd/controller.go: Flags (run, parseRouterFlags), Reading and Contract
--              (what the controller renders is what the router reads), Leader (leaseIsSameHolder,
--              computeLeaderless), Controller (parseControllerFlags), Permissions and Granted
--              (internal/rbacspec/rbacspec.go and probeNamespace)
--   Examples   concrete inputs for the theorems, and tests
--
-- The correspondence. A Go string is its list of bytes, a map[string]V an association list, a
-- pointer an Option. A time is an integer count of nanoseconds; a duration is an int64, and
-- time.Sub saturates; an int32 wraps. The API server is not part of the program: every definition
-- that talks to it takes a Client, whose answers are arbitrary and whose state may change at every
-- call, so the theorems hold with other processes at work between two calls. Each write is logged
-- with its outcome, newest first, together with the metrics that the code counts; a crash leaves
-- an end of the log. Errors are the classes that the code tells apart (not found, conflict,
-- already exists, other); their texts are left out, and so are log lines. Loops run over lists, but
-- for the hold of a request, which asks the API again until the clock passes its deadline: it takes a
-- number of rounds, and the readings of the clock in them, and a number of rounds within which the
-- clock passes the deadline is enough. A mutex makes each change of a shared map one step, so the map
-- is passed along; a watch is the list of its sessions with their events. SHA-256, the text of a time
-- stamp, apimachinery's condition helpers, the canonical form of a header's name, net.JoinHostPort,
-- the reverse proxy, the authorizer, how numbers and durations are printed and read, the files that
-- hold secrets, and the pods of the two Deployments are parameters.
--
-- Not modelled: the tickers that call the passes and the goroutines' scheduling; the pod templates of
-- the workspace's and the router's Deployments with the hash of their specification, and the default
-- size of memory volumes (internal/controller/render.go); the wiring of the managers and listeners
-- (cmd); the metrics registry (internal/metrics), which holds no logic of its own; generated code,
-- tests, charts and manifests.
pub mod Common
pub mod Api
pub mod Cluster
pub mod Reaper
pub mod Identity
pub mod Reclaimer
pub mod Reconciler
pub mod Rendering
pub mod Apps
pub mod Router
pub mod Startup
pub mod Examples
pub mod Admission
