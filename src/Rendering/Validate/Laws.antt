-- ===== src/Rendering/Validate/Laws.antt =====
-- What an app is that ValidateApp (internal/controller/render.go) lets pass.
use per_user_container_opera.Common.{
  ℤ, ◌≡◌, ◌≢◌, refl, ap, ◌↔◌, Bool, true, false, not, ◌&&◌, ◌||◌, Option, none, some, List, [], ◌∷◌,
  Text, text_eq, text_eq_iff, if◌then◌else◌, any, is_some, ◌⊎◌, inl, inr, All, arith,
}
use per_user_container_opera.Api.Network.{Peer}
use per_user_container_opera.Api.App.{
  PerUserApp, PodVolume, VolumeField, config_map, secret, volatile, projected, other_field,
  WorkspaceTemplateSpec,
}
use per_user_container_opera.Rendering.Validate.Peers.{
  IsNarrowRule, gate, last_gate, chain, egress_error_iff,
}
use per_user_container_opera.Rendering.Validate.{
  ConfigError, reserved_volume_name, source_not_allowed, token_forbidden, operator_service_account,
  automount_rejected, fs_group_required, run_as_user_required, open_ingress, caller_auth_mandatory,
  Warning, pvc_volume_name, operator_service_account_name, allowed_volume_source, is_token,
  projects_token, volume_error, volumes_error, is_true, pod_error, is_nil, warned,
  first_config_error, validate_app,
}

-- One source that is on the allowlist, and no ServiceAccount token.
abbrev pub IsSafeSource : List VolumeField → Type 0
IsSafeSource [] = ⊥
IsSafeSource (config_map ∷ []) = Unit
IsSafeSource (secret ∷ []) = Unit
IsSafeSource (volatile memory limit ∷ []) = Unit
IsSafeSource (projected sources ∷ []) = any is_token sources ≡ false
IsSafeSource (other_field ∷ []) = ⊥
IsSafeSource (f ∷ g ∷ more) = ⊥

abbrev pub IsSafeVolume : PodVolume → Type 0
IsSafeVolume v = (v.name ≢ pvc_volume_name) × IsSafeSource v.fields

abbrev pub IsSafePod : WorkspaceTemplateSpec → Type 0
IsSafePod wt =
    (wt.service_account_name ≢ operator_service_account_name)
    × ((wt.automount_token ≢ some true)
        × ((wt.fs_group ≢ none) × ((wt.run_as_non_root ≢ some true) ⊎ (wt.run_as_user ≢ none))))

differs : (s t : Text) → (text_eq s t ≡ false) ↔ (s ≢ t)
differs s t = ground (arith, text_eq_iff s t)

volume_error_iff : (v : PodVolume) → (volume_error v ≡ none) ↔ IsSafeVolume v
unfolding volume_error allowed_volume_source
volume_error_iff v =
    gate (text_eq v.name pvc_volume_name) reserved_volume_name _ (differs v.name pvc_volume_name)
      (by_fields v.fields)
  where
    by_fields :
        (l : List VolumeField)
        → ((if not (allowed_volume_source l)
              then some (source_not_allowed v.name)
              else if any projects_token l
              then some (token_forbidden v.name)
              else none)
            ≡ none)
          ↔ IsSafeSource l
    by_fields [] = (λ h. absurd (cc h), λ h. absurd h)
    by_fields (config_map ∷ []) = (λ h. tt, λ h. refl)
    by_fields (secret ∷ []) = (λ h. tt, λ h. refl)
    by_fields (volatile memory limit ∷ []) = (λ h. tt, λ h. refl)
    by_fields (projected sources ∷ []) = ground arith
    by_fields (other_field ∷ []) = (λ h. absurd (cc h), λ h. absurd h)
    by_fields (f ∷ g ∷ more) = (λ h. absurd (cc h), λ h. absurd h)

volumes_error_iff : (l : List PodVolume) → (volumes_error l ≡ none) ↔ All IsSafeVolume l
unfolding volumes_error
volumes_error_iff [] = (λ h. tt, λ h. refl)
volumes_error_iff (v ∷ l) =
    chain (volume_error v) (volumes_error l) (volume_error_iff v) (volumes_error_iff l)

pod_error_iff : (wt : WorkspaceTemplateSpec) → (pod_error wt ≡ none) ↔ IsSafePod wt
unfolding pod_error
pod_error_iff wt =
    gate (text_eq wt.service_account_name operator_service_account_name) operator_service_account _
      (differs wt.service_account_name operator_service_account_name)
      (gate (is_true wt.automount_token) automount_rejected _ (unless_true wt.automount_token) (
        gate (not (is_some wt.fs_group)) fs_group_required _ (is_set wt.fs_group) (
          last_gate (is_true wt.run_as_non_root && not (is_some wt.run_as_user))
            run_as_user_required (user wt.run_as_non_root wt.run_as_user))))
  where
    unless_true : (o : Option Bool) → (is_true o ≡ false) ↔ (o ≢ some true)
    unless_true none = (λ h q. cc, λ h. refl)
    unless_true (some true) = (λ h. absurd (cc h), λ h. absurd (h refl))
    unless_true (some false) = (λ h q. cc, λ h. refl)

    is_set : (o : Option ℤ) → (not (is_some o) ≡ false) ↔ (o ≢ none)
    is_set none = (λ h. absurd (cc h), λ h. absurd (h refl))
    is_set (some z) = (λ h q. cc, λ h. refl)

    user :
        (a : Option Bool) (b : Option ℤ)
        → (is_true a && not (is_some b) ≡ false) ↔ ((a ≢ some true) ⊎ (b ≢ none))
    user none b = (λ h. inl (λ q. cc), λ h. refl)
    user (some false) b = (λ h. inl (λ q. cc), λ h. refl)
    user (some true) none =
        (λ h. absurd (cc h), λ h. elim h [ inl n ↦ absurd (n refl) | inr n ↦ absurd (n refl) ])
    user (some true) (some z) = (λ h. inr (λ q. cc), λ h. refl)

-- What a valid app is, beside the parts above: its router's ingress is not open to all, and its
-- callers are authenticated.
pub record IsValidApp (app : PerUserApp) : Type 0 where
  pub volumes : All IsSafeVolume app.spec.workspace.volumes
  pub pod : IsSafePod app.spec.workspace
  pub egress : All IsNarrowRule app.spec.network.workspace_egress
  pub ingress :
      (app.spec.network.router_ingress.from ≢ [])
      ⊎ (app.spec.network.router_ingress.from_traefik ≡ true)
  pub caller_auth : (app.spec.caller_auth.header ≢ []) × (app.spec.caller_auth.secret_name ≢ [])

module _ (app : PerUserApp) where
  parts : (first_config_error app ≡ none) ↔ (
      All IsSafeVolume app.spec.workspace.volumes
      × (IsSafePod app.spec.workspace
          × (All IsNarrowRule app.spec.network.workspace_egress
              × (((app.spec.network.router_ingress.from ≢ [])
                    ⊎ (app.spec.network.router_ingress.from_traefik ≡ true))
                  × ((app.spec.caller_auth.header ≢ [])
                      × (app.spec.caller_auth.secret_name ≢ []))))))
  unfolding first_config_error
  parts = chain _ _ (volumes_error_iff app.spec.workspace.volumes) (
      chain _ _ (pod_error_iff app.spec.workspace) (
        chain _ _ (egress_error_iff 0 app.spec.network.workspace_egress) (
          chain _ _
            (last_gate _ open_ingress (
              ingress app.spec.network.router_ingress.from
                app.spec.network.router_ingress.from_traefik))
            (last_gate _ caller_auth_mandatory
              (auth app.spec.caller_auth.header app.spec.caller_auth.secret_name)))))
    where
      ingress : (l : List Peer) (b : Bool) → (is_nil l && not b ≡ false) ↔ ((l ≢ []) ⊎ (b ≡ true))
      ingress [] true = (λ h. inr refl, λ h. refl)
      ingress [] false =
          (λ h. absurd (cc h), λ h. elim h [ inl n ↦ absurd (n refl) | inr n ↦ absurd (cc n) ])
      ingress (p ∷ l) b = (λ h. inl (λ q. absurd (cc q)), λ h. refl)

      auth : (s t : Text) → (is_nil s || is_nil t ≡ false) ↔ ((s ≢ []) × (t ≢ []))
      auth [] t = (λ h. absurd (cc h), λ h. absurd (h.0 refl))
      auth (a ∷ s) [] = (λ h. absurd (cc h), λ h. absurd (h.1 refl))
      auth (a ∷ s) (b ∷ t) = (λ h. (λ q. absurd (cc q), λ q. absurd (cc q)), λ h. refl)

  -- ValidateApp lets an app pass, with its warnings, exactly if: every volume has one source, on the
  -- allowlist and with no ServiceAccount token, and another name than the claim's; the pods run
  -- under another account than the operator's, without its token, with an fsGroup, and with a user
  -- if they must not run as root; every egress rule has peers, each of which names something, sets a
  -- selector that constrains if it sets one at all, and is not one of the two CIDR texts for all
  -- addresses; the router's ingress names a peer; and callers are authenticated.
  pub validate_app_iff : ((ws : List Warning) × (validate_app app ≡ inr ws)) ↔ IsValidApp app
  unfolding validate_app
  validate_app_iff = (
    λ h. valid (parts.0 (clean (first_config_error app) h.0 h.1)),
    λ v.
        (_, ap (warned app) (parts.1 (v.volumes, (v.pod, (v.egress, (v.ingress, v.caller_auth)))))),
  )
    where
      clean : (o : Option ConfigError) (ws : List Warning) → warned app o ≡ inr ws → o ≡ none
      clean none ws e = refl
      clean (some d) ws e = absurd (cc e)

      valid :
          All IsSafeVolume app.spec.workspace.volumes
            × (IsSafePod app.spec.workspace
                × (All IsNarrowRule app.spec.network.workspace_egress
                    × (((app.spec.network.router_ingress.from ≢ [])
                          ⊎ (app.spec.network.router_ingress.from_traefik ≡ true))
                        × ((app.spec.caller_auth.header ≢ [])
                            × (app.spec.caller_auth.secret_name ≢ [])))))
          → IsValidApp app
      valid h = record {
        volumes = h.0;
        pod = h.1.0;
        egress = h.1.1.0;
        ingress = h.1.1.1.0;
        caller_auth = h.1.1.1.1;
      }
