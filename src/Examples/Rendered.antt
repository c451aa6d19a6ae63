-- ===== src/Examples/Rendered.antt =====
-- The theorems on what is rendered for an app, and on its reconcile, at concrete inputs.
use per_user_container_opera.Common.{
  zero, suc, negsuc, if◌then◌else◌, ◌==◌, ◌≡◌, ◌↔◌, refl, inr, true, false, none, some, Bool, List,
  [], ◌∷◌, ◌++◌, Text, codes, text_eq, ℤ, ℕ, pos, All, ok, err, not_found, Result, ◌⊎◌, Option,
}
use per_user_container_opera.Api.Workspace.{Workspace, ready}
use per_user_container_opera.Api.App.{PerUserApp}
use per_user_container_opera.Rendering.Labels.{router_pod_labels, workspace_pod_labels, selects}
use per_user_container_opera.Rendering.Policies.{
  workspace_ingress, workspace_egress_policy, render_router_network_policy,
}
use mathlib.Core.List.{Memᴰ}
use per_user_container_opera.Rendering.Policies.Isolation.{
  Source, lets_in, IsRouter, IsProbe, IngressIs, EgressIs, NamesSource, NamesTarget, IsNarrowOrDns,
  workspace_ingress_lem, validated-closed,
}
use per_user_container_opera.Rendering.Validate.{
  Warning, dns_only, validate_app, first_config_error, volumes_error, pod_error, egress_error,
  mount_warnings,
}
use per_user_container_opera.Rendering.Validate.Laws.{IsValidApp, validate_app_iff}
use per_user_container_opera.Rendering.Seed.{seed_script, copies_contents, shell_single_quote}
use per_user_container_opera.Rendering.Seed.Words.{
  words, copying, change_command, over_entries, copy_command, seed_script-words,
}
use per_user_container_opera.Rendering.Arguments.{caller_auth_file}
use per_user_container_opera.Cluster.{delete_claim}
use per_user_container_opera.Startup.Permissions.{
  Attributes, probe_checks, probe_namespace, controller_namespace_checks,
}
use per_user_container_opera.Startup.Granted.{
  WasAllowed, needs, endpoint_slice_reads, probe_namespace-WasAllowed,
}
use per_user_container_opera.Examples.Data.{app, workspace}

abbrev ide : PerUserApp
ide = app none

abbrev anns : Workspace
anns = workspace (codes "u-1") ready

-- The app is valid, with a warning.
is_valid : validate_app ide ≡ inr (dns_only ∷ [])
unfolding validate_app first_config_error volumes_error pod_error egress_error mount_warnings
    text_eq
is_valid = refl

validate_app_iff_example : ((ws : List Warning) × (validate_app ide ≡ inr ws)) ↔ IsValidApp ide
validate_app_iff_example = validate_app_iff ide

validated-closed_example :
    IngressIs NamesSource (workspace_ingress ide anns (codes "10.0.0.0/24"))
    × EgressIs IsNarrowOrDns (workspace_egress_policy ide anns)
    × IngressIs NamesSource
        (render_router_network_policy ide (codes "10.1.0.0/16") (codes "10.0.0.0/24"))
    × EgressIs NamesTarget
        (render_router_network_policy ide (codes "10.1.0.0/16") (codes "10.0.0.0/24"))
validated-closed_example =
    validated-closed ide anns (codes "10.1.0.0/16") (codes "10.0.0.0/24") (dns_only ∷ []) is_valid

-- The workspace of another user of the same app, on no node.
abbrev neighbour : Source
neighbour = record {
  namespace = codes "dev";
  namespace_labels = [];
  labels = workspace_pod_labels (codes "ide") (codes "u-2");
  within = λ cidr. false;
}

workspace_ingress_lem_example :
    ((selects
          (workspace_ingress ide anns (codes "10.0.0.0/24")).pod_selector
          (workspace_pod_labels (codes "ide") (codes "u-2"))
        ≡ true)
      ↔ ((codes "ide" ≡ codes "ide") × (codes "u-1" ≡ codes "u-2")))
    × ((lets_in (workspace_ingress ide anns (codes "10.0.0.0/24")) neighbour (pos 8080) ≡ true) ↔ (
        IsRouter ide anns neighbour (pos 8080)
        ⊎ IsProbe ide (codes "10.0.0.0/24") neighbour (pos 8080)))
    × ((selects (router_pod_labels (codes "ide")) (router_pod_labels (codes "ide")) ≡ true)
        ↔ (codes "ide" ≡ codes "ide"))
    × (selects (router_pod_labels (codes "ide")) (workspace_pod_labels (codes "ide") (codes "u-2"))
        ≡ false)
workspace_ingress_lem_example =
    workspace_ingress_lem ide anns (codes "10.0.0.0/24") (codes "ide") (codes "u-2") neighbour
      (pos 8080)

seed_script-words_example :
    ((copies_contents (codes "/it's/.") ≡ false)
      × (words (seed_script (codes "/it's/.") (codes "/mnt"))
          ≡ some (copying (codes "/it's/.") (codes "/mnt"))))
    ⊎ ((copies_contents (codes "/it's/.") ≡ true)
        × (seed_script (codes "/it's/.") (codes "/mnt")
            ≡ codes "set -e\n"
              ++ (change_command (codes "/it's/.")
                  ++ (codes "\n" ++ over_entries (copy_command (codes "\"$e\"") (codes "/mnt")))))
        × (words (change_command (codes "/it's/.")) ≡ some (codes "cd" ∷ codes "/it's/." ∷ []))
        × ((entry : Text)
            → words (copy_command (shell_single_quote entry) (codes "/mnt"))
              ≡ some (copying entry (codes "/mnt"))))
seed_script-words_example = seed_script-words (codes "/it's/.") (codes "/mnt")

-- A number printed as that many strokes behind a sign, and read back.
abbrev strokes : ℕ → Text
strokes zero = []
strokes (suc n) = 124 ∷ strokes n

abbrev print : ℤ → Text
print (pos n) = 43 ∷ strokes n
print (negsuc n) = 45 ∷ strokes n

abbrev count : Text → ℕ
count [] = 0
count (b ∷ s) = suc (count s)

abbrev parse : Text → Option ℤ
parse [] = none
parse (b ∷ s) = if b == 43 then some (pos (count s)) else some (negsuc (count s))

-- The file of the caller's credential alone.
abbrev files : Text → Result Text
files path = if text_eq path caller_auth_file then ok (codes "open\n") else err not_found

-- An authorizer that allows everything.
abbrev lenient : Attributes → Unit {0} → Result Bool × Unit {0}
lenient a s = (ok true, s)

probe_namespace-WasAllowed_example :
    All
      (λ k. WasAllowed lenient (codes "dev") k ⊎ Memᴰ k endpoint_slice_reads)
      (needs (delete_claim (record { namespace = codes "dev"; name = codes "ide-u-1" })))
    × All (λ k. ¬ Memᴰ k controller_namespace_checks) endpoint_slice_reads
unfolding probe_namespace probe_checks controller_namespace_checks
probe_namespace-WasAllowed_example =
    probe_namespace-WasAllowed lenient (codes "dev") tt
      (delete_claim (record { namespace = codes "dev"; name = codes "ide-u-1" })) refl
