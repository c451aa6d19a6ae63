-- ===== src/Startup/Permissions.antt =====
-- internal/rbacspec/rbacspec.go, and probeNamespace of cmd/controller.go: the permissions that the
-- controller needs, and the probe that asks for each of them. `review` is what the authorizer answers
-- to one SelfSubjectAccessReview.
use per_user_container_opera.Common.{
  Bool, true, false, ◌&&◌, List, [], ◌∷◌, ◌++◌, Text, codes, if◌then◌else◌, Result, ok, err, map,
}

pub record NamespaceCheck : Type 0 where
  pub group : Text
  pub resource : Text
  pub verb : Text
  pub cluster_scoped : Bool

-- The entries of a resource, one for each verb.
abbrev pub entries : Text → Text → Bool → List Text → List NamespaceCheck
entries group resource cluster_scoped verbs =
    map
      (λ verb. record {
        group = group;
        resource = resource;
        verb = verb;
        cluster_scoped = cluster_scoped;
      })
      verbs

abbrev pub own_group : Text
own_group = codes "apps.kettleofketchup"

abbrev pub rbac_group : Text
rbac_group = codes "rbac.authorization.k8s.io"

abbrev pub reading : List Text
reading = codes "get" ∷ codes "list" ∷ codes "watch" ∷ []

abbrev pub writing : List Text
writing = reading ++ (codes "create" ∷ codes "update" ∷ codes "patch" ∷ [])

abbrev pub of_status : List Text
of_status = codes "get" ∷ codes "update" ∷ codes "patch" ∷ []

-- `ControllerNamespaceChecks`.
unfoldable pub controller_namespace_checks : List NamespaceCheck
controller_namespace_checks =
    entries own_group (codes "peruserapps") false reading
    ++ entries own_group (codes "peruserapps/status") false of_status
    ++ entries own_group (codes "workspaces") false (writing ++ (codes "delete" ∷ []))
    ++ entries own_group (codes "workspaces/status") false of_status
    ++ entries own_group (codes "workspaces/finalizers") false (codes "update" ∷ [])
    ++ entries (codes "apps") (codes "deployments") false writing
    ++ entries [] (codes "services") false writing
    ++ entries [] (codes "persistentvolumeclaims") false (writing ++ (codes "delete" ∷ []))
    ++ entries [] (codes "pods") false reading
    ++ entries [] (codes "serviceaccounts") false writing
    ++ entries [] (codes "events") false (codes "create" ∷ codes "patch" ∷ [])
    ++ entries (codes "networking.k8s.io") (codes "networkpolicies") false writing
    ++ entries rbac_group (codes "rolebindings") false writing
    ++ entries (codes "storage.k8s.io") (codes "storageclasses") true reading
    ++ entries [] (codes "persistentvolumes") true (reading ++ (codes "patch" ∷ []))

-- `ResourceAttributes`.
pub record Attributes : Type 0 where
  pub namespace : Text
  pub group : Text
  pub resource : Text
  pub verb : Text

-- A review of what is not namespaced names no namespace.
abbrev pub attributes : Text → NamespaceCheck → Attributes
attributes ns k = record {
  namespace = if k.cluster_scoped then [] else ns;
  group = k.group;
  resource = k.resource;
  verb = k.verb;
}

abbrev pub is_allowed : Result Bool → Bool
is_allowed (ok allowed) = allowed
is_allowed (err e) = false

-- The text of a check that is not allowed.
abbrev pub failure_text : Text → NamespaceCheck → Text
failure_text ns k =
    k.group
    ++ codes "/"
    ++ k.resource
    ++ codes " "
    ++ k.verb
    ++ codes " ("
    ++ (if k.cluster_scoped then codes "cluster-scoped" else ns)
    ++ codes ")"

module _ {S : Type 0} (review : Attributes → S → Result Bool × S) (ns : Text) where
  -- The loop, from what it has found.
  unfoldable pub probe_checks : List NamespaceCheck → Bool → List Text → S → (Bool × List Text) × S
  probe_checks [] good failed s = ((good, failed), s)
  probe_checks (k ∷ checks) good failed s =
      let (answer, s') = review (attributes ns k) s in
      probe_checks checks (good && is_allowed answer)
        (if is_allowed answer then failed else failed ++ (failure_text ns k ∷ [])) s'

  unfoldable pub probe_namespace : S → (Bool × List Text) × S
  unfolding controller_namespace_checks probe_checks
  probe_namespace s = probe_checks controller_namespace_checks true [] s
