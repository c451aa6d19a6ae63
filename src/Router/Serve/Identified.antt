-- ===== src/Router/Serve/Identified.antt =====
-- Whom a request is served as (internal/router/server.go with internal/identity/identity.go).
use per_user_container_opera.Common.{
  ◌≡◌, refl, sym, ap, ◌∙◌, ◌↔◌, ◌⊎◌, inl, inr, Bool, true, ◌&&◌, [], ◌∷◌, Text, ℤ, Bool-cases,
  both_hold,
}
use per_user_container_opera.Identity.Extract.{
  Header, Extracted, identity, rejected, Rejection, Reason, missing, empty, too_long, duplicate,
  invalid, reserved, extract, extract_values, shared, reject, status_unauthorized,
}
use per_user_container_opera.Identity.Extract.Laws.{IsTrusted, extract_iff, extract-rejected}
use per_user_container_opera.Router.Config.{Config, Request}
use per_user_container_opera.Router.Auth.{shared_request}
use per_user_container_opera.Router.Serve.{is_missing, substituted, identify}

is_missing_lem : (reason : Reason) → is_missing reason ≡ true → reason ≡ missing
is_missing_lem missing e = refl
is_missing_lem empty e = absurd (cc e)
is_missing_lem too_long e = absurd (cc e)
is_missing_lem duplicate e = absurd (cc e)
is_missing_lem invalid e = absurd (cc e)
is_missing_lem reserved e = absurd (cc e)

-- Where the identity of a substituted result is from.
substituted_cases :
    (is_shared : Bool) (x : Extracted) (raw : Text)
    → substituted is_shared x ≡ identity raw
    → (x ≡ identity raw)
      ⊎ ((rej : Rejection) × ((x ≡ rejected rej)
            × (rej.reason ≡ missing)
            × (is_shared ≡ true)
            × (raw ≡ shared)))
substituted_cases is_shared (identity v) raw e = inl e
substituted_cases is_shared (rejected rej) raw e =
    elim (Bool-cases (is_missing rej.reason && is_shared)) [
      | inl t ↦ inr (
        rej,
        (
          refl,
          is_missing_lem rej.reason (both_hold _ is_shared t).0,
          (both_hold (is_missing rej.reason) is_shared t).1,
          cc (rw t at e),
        ),
      )
      | inr t ↦ absurd (cc (rw t at e))
    ]

extract-missing :
    (h : Header) (header : Text) (max_length : ℤ)
    → h header ≡ []
    → extract h header max_length ≡ reject missing status_unauthorized
unfolding extract extract_values
extract-missing h header max_length e = rw e refl

-- A request is served under an identity in two ways only: its identity header occurs exactly once
-- with that identity as its value, which is trusted and is not the reserved one; or the header does
-- not occur at all, the request is a read of one of the app's shared paths, and the identity is the
-- reserved one. So no value of the header leads to the shared Workspace.
pub identify_iff :
    (cfg : Config) (r : Request) (raw : Text)
    → (identify cfg r ≡ identity raw) ↔ (
        ((r.header cfg.identity_header ≡ raw ∷ []) × IsTrusted cfg.identity_max_length raw)
        ⊎ ((r.header cfg.identity_header ≡ []) × (shared_request cfg r ≡ true) × (raw ≡ shared)))
unfolding identify
identify_iff cfg r raw = (forth, back)
  where
    values_of : Header
    values_of = r.header

    extracted : Extracted
    extracted = extract values_of cfg.identity_header cfg.identity_max_length

    from_header :
        (extracted ≡ identity raw)
        ↔ ((values_of cfg.identity_header ≡ raw ∷ []) × IsTrusted cfg.identity_max_length raw)
    from_header = extract_iff values_of cfg.identity_header cfg.identity_max_length raw

    forth :
        substituted (shared_request cfg r) extracted ≡ identity raw
        → ((values_of cfg.identity_header ≡ raw ∷ []) × IsTrusted cfg.identity_max_length raw)
          ⊎ ((values_of cfg.identity_header ≡ []) × (shared_request cfg r ≡ true) × (raw ≡ shared))
    forth e = elim (substituted_cases (shared_request cfg r) extracted raw e) [
      | inl h ↦ inl (from_header.0 h)
      | inr (rej, (h, m, s, q)) ↦ inr (
        (extract-rejected values_of cfg.identity_header cfg.identity_max_length rej h).1.0 m,
        s,
        q,
      )
    ]

    back :
        ((values_of cfg.identity_header ≡ raw ∷ []) × IsTrusted cfg.identity_max_length raw)
          ⊎ ((values_of cfg.identity_header ≡ []) × (shared_request cfg r ≡ true) × (raw ≡ shared))
        → substituted (shared_request cfg r) extracted ≡ identity raw
    back (inl h) = ap (substituted (shared_request cfg r)) (from_header.1 h)
    back (inr (h, s, q)) =
        ap (λ b. substituted b extracted) s
        ∙ ap (substituted true)
            (extract-missing values_of cfg.identity_header cfg.identity_max_length h)
        ∙ ap identity (sym q)
