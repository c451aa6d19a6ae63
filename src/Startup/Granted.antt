-- ===== src/Startup/Granted.antt =====
-- Which of the permissions that are probed for (internal/rbacspec/rbacspec.go, cmd/controller.go) the
-- writes of the controllers (internal/controller) need.
use per_user_container_opera.Common.{
  ◌≡◌, ◌⊎◌, All-Memᴰ, refl, sym, Bool, true, false, ◌&&◌, ◌||◌, List, [], ◌∷◌, ◌++◌, Text, codes,
  text_eq, text_eq_iff, if◌then◌else◌, Result, ok, err, All, any, all, inl, inr, Bool-cases,
  both_hold, not,
}
use mathlib.Core.List.{Memᴰ}
use per_user_container_opera.Api.Objects.{
  RouterObject, workspace_account, router_account, router_binding, router_deployment,
  router_service, router_policy,
}
use per_user_container_opera.Cluster.{
  Request, update_workspace_status, patch_workspace_status, update_workspace, create_workspace,
  delete_workspace, create_claim, patch_claim, delete_claim, patch_volume, create_deployment,
  patch_deployment, create_service, apply_policy, create_or_update, patch_app_status,
}
use per_user_container_opera.Startup.Permissions.{
  NamespaceCheck, entries, reading, own_group, rbac_group, controller_namespace_checks, Attributes,
  attributes, is_allowed, probe_checks, probe_namespace,
}

-- What Kubernetes asks for a write: the verb of its call on the resource, of the subresource for a
-- status. `CreateOrUpdate` reads the object, and creates or updates it.
abbrev pub upserting : List Text
upserting = codes "get" ∷ codes "create" ∷ codes "update" ∷ []

-- What the Role of the routers grants (charts/per-user-container-operator/templates/router-role.yaml).
-- Kubernetes refuses a binding of a Role to one who has not every permission of the Role.
abbrev pub endpoint_slice_reads : List NamespaceCheck
endpoint_slice_reads = entries (codes "discovery.k8s.io") (codes "endpointslices") false reading

abbrev pub router_role : List NamespaceCheck
router_role =
    entries own_group (codes "workspaces") false (reading ++ (codes "create" ∷ []))
    ++ entries own_group (codes "workspaces/status") false (codes "patch" ∷ [])
    ++ entries [] (codes "services") false reading
    ++ endpoint_slice_reads

abbrev pub object_needs : RouterObject → List NamespaceCheck
object_needs (workspace_account a) = entries [] (codes "serviceaccounts") false upserting
object_needs (router_account a) = entries [] (codes "serviceaccounts") false upserting
object_needs (router_binding b) =
    entries rbac_group (codes "rolebindings") false upserting ++ router_role
object_needs (router_deployment d) = entries (codes "apps") (codes "deployments") false upserting
object_needs (router_service s) = entries [] (codes "services") false upserting
object_needs (router_policy p) =
    entries (codes "networking.k8s.io") (codes "networkpolicies") false upserting

abbrev pub one : Text → Text → Text → List NamespaceCheck
one group resource verb = entries group resource false (verb ∷ [])

abbrev pub needs : Request → List NamespaceCheck
needs (update_workspace_status ws) = one own_group (codes "workspaces/status") (codes "update")
needs (patch_workspace_status b ws) = one own_group (codes "workspaces/status") (codes "patch")
needs (update_workspace ws) = one own_group (codes "workspaces") (codes "update")
needs (create_workspace ws) = one own_group (codes "workspaces") (codes "create")
needs (delete_workspace k) = one own_group (codes "workspaces") (codes "delete")
needs (create_claim k) = one [] (codes "persistentvolumeclaims") (codes "create")
needs (patch_claim b k) = one [] (codes "persistentvolumeclaims") (codes "patch")
needs (delete_claim k) = one [] (codes "persistentvolumeclaims") (codes "delete")
needs (patch_volume b v) = entries [] (codes "persistentvolumes") true (codes "patch" ∷ [])
needs (create_deployment d) = one (codes "apps") (codes "deployments") (codes "create")
needs (patch_deployment b d) = one (codes "apps") (codes "deployments") (codes "patch")
needs (create_service s) = one [] (codes "services") (codes "create")
needs (apply_policy p) =
    entries (codes "networking.k8s.io") (codes "networkpolicies") false upserting
needs (create_or_update o) = object_needs o
needs (patch_app_status b a) = one own_group (codes "peruserapps/status") (codes "patch")

abbrev same_scope : Bool → Bool → Bool
same_scope a b = if a then b else not b

same_scope_lem : (a b : Bool) → same_scope a b ≡ true → a ≡ b
same_scope_lem true b e = sym e
same_scope_lem false true e = absurd (cc e)
same_scope_lem false false e = refl

abbrev same_check : NamespaceCheck → NamespaceCheck → Bool
same_check k l =
    (text_eq k.group l.group && text_eq k.resource l.resource)
    && (text_eq k.verb l.verb && same_scope k.cluster_scoped l.cluster_scoped)

same_check_lem : (k l : NamespaceCheck) → same_check k l ≡ true → k ≡ l
same_check_lem k l e =
    let (a, b) = both_hold _ _ e in
    let (g, r) = both_hold _ _ a in
    let (v, s) = both_hold _ _ b in
    alike ((text_eq_iff k.group l.group).0 g) ((text_eq_iff k.resource l.resource).0 r)
      ((text_eq_iff k.verb l.verb).0 v) (same_scope_lem k.cluster_scoped l.cluster_scoped s)
  where
    alike :
        k.group ≡ l.group
        → k.resource ≡ l.resource
        → k.verb ≡ l.verb
        → k.cluster_scoped ≡ l.cluster_scoped
        → k ≡ l
    alike a b c d i = record { group = a i; resource = b i; verb = c i; cluster_scoped = d i }

same_check-itself : (k : NamespaceCheck) → same_check k k ≡ true
same_check-itself k =
    rw
      (
        (text_eq_iff k.group k.group).1 refl,
        (text_eq_iff k.resource k.resource).1 refl,
        (text_eq_iff k.verb k.verb).1 refl,
      )
      (same_scope-itself k.cluster_scoped)
  where
    same_scope-itself : (b : Bool) → same_scope b b ≡ true
    same_scope-itself true = refl
    same_scope-itself false = refl

abbrev has : List NamespaceCheck → NamespaceCheck → Bool
has l k = any (same_check k) l

member-has : (l : List NamespaceCheck) (k : NamespaceCheck) → has l k ≡ true → Memᴰ k l
member-has [] k e = absurd (cc e)
member-has (x ∷ l) k e = elim (Bool-cases (same_check k x)) [
  | inl t ↦ Memᴰ.head (same_check_lem k x t)
  | inr f ↦ Memᴰ.tail (member-has l k (rw f at e))
]

has-member : (l : List NamespaceCheck) (k : NamespaceCheck) → Memᴰ k l → has l k ≡ true
has-member [] k m = elim m [ ]
has-member (x ∷ l) k (Memᴰ.head e) = rw⁻¹ e (rw (same_check-itself k) refl)
has-member (x ∷ l) k (Memᴰ.tail m) = elim (Bool-cases (same_check k x)) [
  | inl t ↦ rw t refl
  | inr f ↦ rw f (has-member l k m)
]

-- Each of some permissions is among those that are probed for, or one of reading EndpointSlices.
covered :
    (ks : List NamespaceCheck)
    → all (λ k. has controller_namespace_checks k || has endpoint_slice_reads k) ks ≡ true
    → All (λ k. Memᴰ k controller_namespace_checks ⊎ Memᴰ k endpoint_slice_reads) ks
covered [] e = tt
covered (k ∷ ks) e =
    let (a, b) =
      both_hold (has controller_namespace_checks k || has endpoint_slice_reads k)
        (all (λ x. has controller_namespace_checks x || has endpoint_slice_reads x) ks) e in
    (
      elim (Bool-cases (has controller_namespace_checks k)) [
        | inl t ↦ inl (member-has controller_namespace_checks k t)
        | inr f ↦ inr (member-has endpoint_slice_reads k (rw f at a))
      ],
      covered ks b,
    )

abbrev IsCovered : Request → Type 0
IsCovered q =
    all (λ k. has controller_namespace_checks k || has endpoint_slice_reads k) (needs q) ≡ true

object-IsCovered : (o : RouterObject) → IsCovered (create_or_update o)
unfolding controller_namespace_checks text_eq
object-IsCovered (workspace_account a) = refl
object-IsCovered (router_account a) = refl
object-IsCovered (router_binding b) = refl
object-IsCovered (router_deployment d) = refl
object-IsCovered (router_service s) = refl
object-IsCovered (router_policy p) = refl

write-IsCovered : (q : Request) → IsCovered q
unfolding controller_namespace_checks text_eq
write-IsCovered (update_workspace_status ws) = refl
write-IsCovered (patch_workspace_status b ws) = refl
write-IsCovered (update_workspace ws) = refl
write-IsCovered (create_workspace ws) = refl
write-IsCovered (delete_workspace k) = refl
write-IsCovered (create_claim k) = refl
write-IsCovered (patch_claim b k) = refl
write-IsCovered (delete_claim k) = refl
write-IsCovered (patch_volume b v) = refl
write-IsCovered (create_deployment d) = refl
write-IsCovered (patch_deployment b d) = refl
write-IsCovered (create_service s) = refl
write-IsCovered (apply_policy p) = refl
write-IsCovered (create_or_update o) = object-IsCovered o
write-IsCovered (patch_app_status b a) = refl

unprobed :
    (ks : List NamespaceCheck)
    → all (λ k. not (has controller_namespace_checks k)) ks ≡ true
    → All (λ k. ¬ Memᴰ k controller_namespace_checks) ks
unprobed [] e = tt
unprobed (k ∷ ks) e =
    let (a, b) =
      both_hold (not (has controller_namespace_checks k))
        (all (λ x. not (has controller_namespace_checks x)) ks) e in
    ((λ m. absurd (cc (rw (has-member controller_namespace_checks k m) at a))), unprobed ks b)

slices_unprobed : All (λ k. ¬ Memᴰ k controller_namespace_checks) endpoint_slice_reads
unfolding controller_namespace_checks text_eq
slices_unprobed = unprobed endpoint_slice_reads refl

allowed_lem : (r : Result Bool) → is_allowed r ≡ true → r ≡ ok true
allowed_lem (ok true) e = refl
allowed_lem (ok false) e = absurd (cc e)
allowed_lem (err x) e = absurd (cc e)

module _ {S : Type 0} (review : Attributes → S → Result Bool × S) (ns : Text) where
  -- The review of a check was answered that it is allowed.
  abbrev pub WasAllowed : NamespaceCheck → Type 0
  WasAllowed k = (s : S) × ((review (attributes ns k) s).0 ≡ ok true)

  probe_checks-WasAllowed :
      (checks : List NamespaceCheck) (good : Bool) (failed : List Text) (s : S)
      → (probe_checks review ns checks good failed s).0.0 ≡ true
      → (good ≡ true) × All WasAllowed checks
  unfolding probe_checks
  probe_checks-WasAllowed [] good failed s e = (e, tt)
  probe_checks-WasAllowed (k ∷ checks) good failed s e =
      let answer = (review (attributes ns k) s).0 in
      let (h, rest) =
        probe_checks-WasAllowed checks (good && is_allowed answer) _ (review (attributes ns k) s).1
          e in
      let (g, a) = both_hold good (is_allowed answer) h in (g, ((s, allowed_lem answer a), rest))

  allowed_or_slices :
      (ks : List NamespaceCheck)
      → All WasAllowed controller_namespace_checks
      → All (λ k. Memᴰ k controller_namespace_checks ⊎ Memᴰ k endpoint_slice_reads) ks
      → All (λ k. WasAllowed k ⊎ Memᴰ k endpoint_slice_reads) ks
  allowed_or_slices [] h c = tt
  allowed_or_slices (k ∷ ks) h c = (
    elim c.0 [ inl m ↦ inl (All-Memᴰ WasAllowed h m) | inr m ↦ inr m ],
    allowed_or_slices ks h c.1,
  )

  -- If the startup probe finds a namespace ready, then of the permissions that the writes of the
  -- controllers need there, those included that the binding of the router's Role needs, each was asked
  -- for in its scope and answered to be allowed, but for the reading of EndpointSlices; and that is
  -- the gap: the probe asks for none of it.
  pub probe_namespace-WasAllowed :
      (s : S) (q : Request)
      → (probe_namespace review ns s).0.0 ≡ true
      → All (λ k. WasAllowed k ⊎ Memᴰ k endpoint_slice_reads) (needs q)
        × All (λ k. ¬ Memᴰ k controller_namespace_checks) endpoint_slice_reads
  unfolding probe_namespace
  probe_namespace-WasAllowed s q e = (
    allowed_or_slices (needs q) (probe_checks-WasAllowed controller_namespace_checks true [] s e).1
        (covered (needs q) (write-IsCovered q)),
    slices_unprobed,
  )
