-- ===== src/Router/Auth.antt =====
-- internal/router/server.go, checkCallerAuth and sharedRequest.
use per_user_container_opera.Common.{
  ◌≡◌, ◌≢◌, refl, sym, ap, ◌∙◌, ◌↔◌, inl, inr, Bool, true, false, ◌||◌, Option, none, some, List,
  [], ◌∷◌, ◌++◌, Text, codes, text_eq, text_eq_iff, ◌==◌, if◌then◌else◌, arith, any, Option-cases,
}
use per_user_container_opera.Identity.Extract.{Header}
use per_user_container_opera.Router.Config.{Config, Request}

-- `strings.HasPrefix` and `strings.TrimPrefix`: what follows the prefix, if the text has it.
unfoldable pub after_prefix : Text → Text → Option Text
after_prefix [] s = some s
after_prefix (a ∷ p) [] = none
after_prefix (a ∷ p) (b ∷ s) = if a == b then after_prefix p s else none

-- `subtle.ConstantTimeCompare(a, b) == 1`.
abbrev pub matches_secret : Text → Option Text → Bool
matches_secret secret none = false
matches_secret secret (some got) = text_eq got secret

-- What a value presents as its credential.
unfoldable pub credential : Config → Text → Option Text
unfolding after_prefix
credential cfg got = elim cfg.caller_auth_scheme [
  | [] ↦ some got
  | a ∷ s ↦ after_prefix (cfg.caller_auth_scheme ++ codes " ") got
]

unfoldable pub check_values : Config → List Text → Bool
unfolding credential
check_values cfg [] = false
check_values cfg (got ∷ []) = matches_secret cfg.caller_auth_secret (credential cfg got)
check_values cfg (got ∷ second ∷ more) = false

unfoldable pub check_caller_auth : Config → Header → Bool
unfolding check_values
check_caller_auth cfg h = elim cfg.caller_auth_secret [
  | [] ↦ false
  | a ∷ s ↦ check_values cfg (h cfg.caller_auth_header)
]

unfoldable pub shared_request : Config → Request → Bool
shared_request cfg r =
    if text_eq r.method (codes "GET") || text_eq r.method (codes "HEAD")
    then any (λ p. text_eq r.path p) cfg.shared_paths
    else false

-- The one value of the header that authenticates.
abbrev pub presented : Text → Text → Text
presented [] secret = secret
presented (a ∷ s) secret = ((a ∷ s) ++ codes " ") ++ secret

after_prefix_iff : (p s t : Text) → (after_prefix p s ≡ some t) ↔ (s ≡ p ++ t)
unfolding after_prefix
after_prefix_iff [] s t = (λ e. cc, λ e. cc)
after_prefix_iff (a ∷ p) [] t = (λ e. absurd (cc e), λ e. absurd (cc e))
after_prefix_iff (a ∷ p) (b ∷ s) t = ground (arith, after_prefix_iff p s t)

matches_prefix :
    (p s secret : Text) → (matches_secret secret (after_prefix p s) ≡ true) ↔ (s ≡ p ++ secret)
matches_prefix p s secret = elim (Option-cases (after_prefix p s)) [
  | inl e ↦
      rw e (λ h. absurd (cc h), λ h. absurd (none_some (sym e ∙ (after_prefix_iff p s secret).1 h)))
  | inr (t, e) ↦ rw e (
    λ h. (after_prefix_iff p s t).0 e ∙ ap (λ (u : Text). p ++ u) ((text_eq_iff t secret).0 h),
    λ h. (text_eq_iff t secret).1 (cc (sym e ∙ (after_prefix_iff p s secret).1 h)),
  )
]
  where
    none_some : ◌≡◌ {A = Option Text} none (some secret) → ⊥
    none_some h = cc

credential_iff :
    (cfg : Config) (got : Text)
    → (matches_secret cfg.caller_auth_secret (credential cfg got) ≡ true)
      ↔ (got ≡ presented cfg.caller_auth_scheme cfg.caller_auth_secret)
unfolding credential
credential_iff cfg got = by_scheme cfg.caller_auth_scheme
  where
    by_scheme :
        (scheme : Text)
        → (matches_secret cfg.caller_auth_secret
              (credential (record cfg { caller_auth_scheme = scheme }) got)
            ≡ true)
          ↔ (got ≡ presented scheme cfg.caller_auth_secret)
    by_scheme [] = text_eq_iff got cfg.caller_auth_secret
    by_scheme (a ∷ s) = matches_prefix ((a ∷ s) ++ codes " ") got cfg.caller_auth_secret

check_values_iff :
    (cfg : Config) (values : List Text)
    → (check_values cfg values ≡ true)
      ↔ (values ≡ presented cfg.caller_auth_scheme cfg.caller_auth_secret ∷ [])
unfolding check_values
check_values_iff cfg [] = (λ h. absurd (cc h), λ h. absurd (cc h))
check_values_iff cfg (got ∷ []) = (
  λ h. ap (λ (t : Text). t ∷ []) ((credential_iff cfg got).0 h),
  λ h. (credential_iff cfg got).1 (cc h),
)
check_values_iff cfg (got ∷ second ∷ more) = (λ h. absurd (cc h), λ h. absurd (cc h))

-- A caller is let in exactly when a secret is configured and the configured header occurs exactly
-- once, with the secret as its value, after the scheme and a space if a scheme is configured. In
-- particular an empty secret lets nobody in.
pub check_caller_auth_iff :
    (cfg : Config) (h : Header)
    → (check_caller_auth cfg h ≡ true) ↔ (
        (cfg.caller_auth_secret ≢ [])
        × (h cfg.caller_auth_header ≡ presented cfg.caller_auth_scheme cfg.caller_auth_secret ∷ []))
unfolding check_caller_auth
check_caller_auth_iff cfg h = by_secret cfg.caller_auth_secret refl
  where
    by_secret :
        (secret : Text)
        → cfg.caller_auth_secret ≡ secret
        → (elim secret [ [] ↦ false | a ∷ s ↦ check_values cfg (h cfg.caller_auth_header) ] ≡ true)
          ↔ ((secret ≢ [])
              × (h cfg.caller_auth_header ≡ presented cfg.caller_auth_scheme secret ∷ []))
    by_secret [] e = (λ q. absurd (cc q), λ q. absurd (q.0 refl))
    by_secret (a ∷ s) e =
        let l = check_values_iff cfg (h cfg.caller_auth_header) in
        (λ q. (λ n. absurd (cc n), l.0 q ∙ rw e refl), λ q. l.1 (q.1 ∙ rw e refl))
