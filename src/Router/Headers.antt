-- ===== src/Router/Headers.antt =====
-- internal/router/proxy.go: what of a request's header reaches the upstream, which requests upgrade
-- their connection, and the status that a response is counted under. `canonical` is
-- `textproto.CanonicalMIMEHeaderKey`, by which `http.Header` reads, deletes and sets a name.
use per_user_container_opera.Common.{
  ℕ, ◌≡◌, refl, Bool, true, false, not, ◌&&◌, ◌||◌, inl, inr, List, [], ◌∷◌, ◌++◌, Text, codes,
  text_eq, ◌==◌, ◌+◌, leb, if◌then◌else◌, arith, any, Bool-cases,
}
use per_user_container_opera.Identity.Extract.{Header, is_blank, space1, space2, space3}
use per_user_container_opera.Router.Config.{Config, Request}

abbrev pub is_empty : Text → Bool
is_empty [] = true
is_empty (a ∷ s) = false

-- The credential for the upstream.
abbrev pub upstream_credential : Config → Text
upstream_credential cfg =
    if is_empty cfg.upstream_auth_scheme
    then cfg.upstream_auth_secret
    else (cfg.upstream_auth_scheme ++ codes " ") ++ cfg.upstream_auth_secret

abbrev pub has_upstream : Config → Bool
has_upstream cfg = not (is_empty cfg.upstream_auth_header || is_empty cfg.upstream_auth_secret)

module _ (canonical : Text → Text) where
  -- `h.Del(name)` and `h.Set(name, v)`.
  unfoldable pub del : Text → Header → Header
  del name h n = if text_eq (canonical n) (canonical name) then [] else h n

  unfoldable pub set : Text → Text → Header → Header
  set name v h n = if text_eq (canonical n) (canonical name) then v ∷ [] else h n

  unfoldable pub apply_header_policy : Header → Config → Header
  unfolding del set
  apply_header_policy h cfg =
      let h1 = del cfg.caller_auth_header h in
      let h2 = del cfg.identity_header h1 in
      let h3 = del (codes "Cookie") h2 in
      let h4 = del (codes "Authorization") h3 in
      if has_upstream cfg then set cfg.upstream_auth_header (upstream_credential cfg) h4 else h4

  abbrev pub is_name : Text → Text → Bool
  is_name name n = text_eq (canonical n) (canonical name)

  -- The names whose values never pass.
  abbrev pub is_stripped : Config → Text → Bool
  is_stripped cfg n =
      is_name cfg.caller_auth_header n
      || is_name cfg.identity_header n
      || is_name (codes "Cookie") n
      || is_name (codes "Authorization") n

  -- What reaches the upstream under a name is: the upstream credential alone under its own name, if
  -- one is configured; nothing under the names of the caller's credential, the identity, a cookie or
  -- an authorization; and what the caller sent under every other name.
  pub apply_header_policy_lem :
      (h : Header) (cfg : Config) (n : Text)
      → apply_header_policy h cfg n ≡ (
          if has_upstream cfg && is_name cfg.upstream_auth_header n
          then upstream_credential cfg ∷ []
          else if is_stripped cfg n
          then []
          else h n)
  unfolding apply_header_policy del set
  apply_header_policy_lem h cfg n = elim (Bool-cases (has_upstream cfg)) [
    | inl e ↦ rw e (
        both (is_name cfg.upstream_auth_header n) (upstream_credential cfg ∷ []) (
          strips (is_name cfg.caller_auth_header n) (is_name cfg.identity_header n)
            (is_name (codes "Cookie") n) (is_name (codes "Authorization") n) (h n)))
    | inr e ↦ rw e (
        strips (is_name cfg.caller_auth_header n) (is_name cfg.identity_header n)
          (is_name (codes "Cookie") n) (is_name (codes "Authorization") n) (h n))
  ]
    where
      strips :
          (a b c d : Bool) (v : List Text)
          → (if d then [] else if c then [] else if b then [] else if a then [] else v)
            ≡ (if a || b || c || d then [] else v)
      strips a b c d v = ground arith

      both :
          (m : Bool) (v : List Text) {x y : List Text}
          → x ≡ y
          → (if m then v else x) ≡ (if m then v else y)
      both m v e = rw e refl

abbrev pub first_value : List Text → Text
first_value [] = []
first_value (v ∷ more) = v

-- `strings.Split(v, ",")`: the parts, of which there is always one.
unfoldable pub split_commas : Text → Text × List Text
split_commas [] = ([], [])
split_commas (b ∷ s) =
    let (part, rest) = split_commas s in if b == b',' then ([], part ∷ rest) else (b ∷ part, rest)

-- `strings.TrimSpace`.
unfoldable pub trim_left : Text → Text
unfolding space1 space2 space3
trim_left [] = []
trim_left (a ∷ []) = if space1 a then [] else a ∷ []
trim_left (a ∷ b ∷ []) = elim (space1 a) [
  | true ↦ trim_left (b ∷ [])
  | false ↦ if space2 a b then [] else a ∷ b ∷ []
]
trim_left (a ∷ b ∷ c ∷ r) = elim (space1 a) [
  | true ↦ trim_left (b ∷ c ∷ r)
  | false ↦ elim (space2 a b) [
    | true ↦ trim_left (c ∷ r)
    | false ↦ elim (space3 a b c) [ true ↦ trim_left r | false ↦ a ∷ b ∷ c ∷ r ]
  ]
]

unfoldable pub trim_right : Text → Text
unfolding is_blank
trim_right [] = []
trim_right (a ∷ s) = let rest = trim_right s in if is_blank (a ∷ s) then [] else a ∷ rest

-- `strings.EqualFold` with a token of ASCII letters that have no other fold, as "upgrade" is.
abbrev pub fold : ℕ → ℕ
fold b = if leb 65 b && leb b 90 then b + 32 else b

unfoldable pub equal_fold : Text → Text → Bool
equal_fold [] [] = true
equal_fold (a ∷ s) (b ∷ t) = fold a == fold b && equal_fold s t
equal_fold _ _ = false

unfoldable pub header_contains_token : Text → Text → Bool
unfolding split_commas trim_left trim_right equal_fold
header_contains_token v token =
    let (part, rest) = split_commas v in
    any (λ p. equal_fold (trim_right (trim_left p)) token) (part ∷ rest)

unfoldable pub is_upgrade_request : Request → Bool
unfolding header_contains_token
is_upgrade_request r =
    if is_empty (first_value (r.header (codes "Upgrade")))
    then false
    else header_contains_token (first_value (r.header (codes "Connection"))) (codes "upgrade")

-- `statusRecorder.code`, of the last status that was written, 0 if none was.
unfoldable pub code : ℕ → ℕ
code status = if status == 0 then 200 else status
