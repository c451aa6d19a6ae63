-- ===== src/Rendering/Validate/Peers.antt =====
-- Which egress rules ValidateApp (internal/controller/render.go) lets pass.
use per_user_container_opera.Common.{
  ℕ, suc, ◌≡◌, ◌≢◌, refl, ◌↔◌, Bool, true, false, ◌&&◌, Option, none, some, List, [], ◌∷◌, Text,
  codes, text_eq_iff, if◌then◌else◌, ◌⊎◌, inl, inr, All, arith,
}
use per_user_container_opera.Api.Network.{LabelSelector, Peer, EgressRule}
use per_user_container_opera.Rendering.Validate.{
  ConfigError, every_address, own_namespace, every_namespace, or_else, is_nil,
  is_empty_label_selector, is_every_address, peer_error, peers_error, rule_error, egress_error,
}

abbrev pub Constrains : LabelSelector → Type 0
Constrains sel = (sel.match_labels ≢ []) ⊎ (sel.match_expressions ≢ [])

abbrev pub IsSomeAddresses : Option Text → Type 0
IsSomeAddresses none = Unit
IsSomeAddresses (some cidr) = (cidr ≢ codes "0.0.0.0/0") × (cidr ≢ codes "::/0")

-- Something is named, and of the selectors that are set one constrains.
abbrev pub Names : Option Text → Option LabelSelector → Option LabelSelector → Type 0
Names none none none = ⊥
Names (some cidr) none none = Unit
Names block (some pods) none = Constrains pods
Names block none (some spaces) = Constrains spaces
Names block (some pods) (some spaces) = Constrains pods ⊎ Constrains spaces

abbrev pub IsNarrow : Peer → Type 0
IsNarrow p = Names p.ip_block p.pod_selector p.namespace_selector × IsSomeAddresses p.ip_block

abbrev pub IsNarrowRule : EgressRule → Type 0
IsNarrowRule r = (r.to ≢ []) × All IsNarrow r.to

-- A chain of checks passes if each does.
pub gate :
    {P Q : Type 0} (t : Bool) (e : ConfigError) (rest : Option ConfigError)
    → (t ≡ false) ↔ P
    → (rest ≡ none) ↔ Q
    → ((if t then some e else rest) ≡ none) ↔ (P × Q)
gate true e rest f g = (λ h. absurd (cc h), λ h. absurd (cc (f.1 h.0)))
gate false e rest f g = (λ h. (f.0 refl, g.0 h), λ h. g.1 h.1)

pub last_gate :
    {P : Type 0} (t : Bool) (e : ConfigError)
    → (t ≡ false) ↔ P
    → ((if t then some e else none) ≡ none) ↔ P
last_gate true e f = (λ h. absurd (cc h), λ h. absurd (cc (f.1 h)))
last_gate false e f = (λ h. f.0 refl, λ h. refl)

pub chain :
    {P Q : Type 0} (a b : Option ConfigError)
    → (a ≡ none) ↔ P
    → (b ≡ none) ↔ Q
    → (or_else a b ≡ none) ↔ (P × Q)
chain none b f g = (λ h. (f.0 refl, g.0 h), λ h. g.1 h.1)
chain (some e) b f g = (λ h. absurd (cc h), λ h. absurd (cc (f.1 h.0)))

one_of :
    {P Q : Type 0} (a b : Bool) → (a ≡ false) ↔ P → (b ≡ false) ↔ Q → (b && a ≡ false) ↔ (P ⊎ Q)
one_of a true f g = (λ h. inl (f.0 h), λ h. elim h [ inl p ↦ f.1 p | inr q ↦ absurd (cc (g.1 q)) ])
one_of a false f g = (λ h. inr (g.0 refl), λ h. refl)

and_false : (b : Bool) → (b && false) ≡ false
and_false true = refl
and_false false = refl

and_true : (b : Bool) → (b && true) ≡ b
and_true true = refl
and_true false = refl

selector : (sel : LabelSelector) → (is_empty_label_selector sel ≡ false) ↔ Constrains sel
unfolding is_empty_label_selector
selector sel = by_lists sel.match_labels sel.match_expressions
  where
    by_lists :
        (l : List (Text × Text)) (e : List Text)
        → (is_nil l && is_nil e ≡ false) ↔ ((l ≢ []) ⊎ (e ≢ []))
    by_lists [] [] =
        (λ h. absurd (cc h), λ h. elim h [ inl n ↦ absurd (n refl) | inr n ↦ absurd (n refl) ])
    by_lists [] (x ∷ e) = (λ h. inr (λ q. absurd (cc q)), λ h. refl)
    by_lists (x ∷ l) e = (λ h. inl (λ q. absurd (cc q)), λ h. refl)

peer_error_iff : (i j : ℕ) (p : Peer) → (peer_error i j p ≡ none) ↔ IsNarrow p
unfolding peer_error
peer_error_iff i j p = by_parts p.ip_block p.pod_selector p.namespace_selector
  where
    addresses :
        (b : Option Text) (e : ConfigError)
        → ((if is_every_address b then some e else none) ≡ none) ↔ IsSomeAddresses b
    addresses none e = (λ h. tt, λ h. refl)
    addresses (some cidr) e =
        ground (arith, text_eq_iff cidr (codes "0.0.0.0/0"), text_eq_iff cidr (codes "::/0"))

    by_parts :
        (b : Option Text) (s n : Option LabelSelector)
        → (peer_error i j (record { ip_block = b; pod_selector = s; namespace_selector = n })
            ≡ none)
          ↔ (Names b s n × IsSomeAddresses b)
    by_parts none none none = (λ h. absurd (cc h), λ h. absurd h.0)
    by_parts (some c) none none =
        let f = addresses (some c) (every_address i j) in (λ h. (tt, f.0 h), λ h. f.1 h.1)
    by_parts none (some s) none = rw (and_true (is_empty_label_selector s)) (
        gate (is_empty_label_selector s) (own_namespace i j) none (selector s)
          (addresses none (every_address i j)))
    by_parts (some c) (some s) none = rw (and_true (is_empty_label_selector s)) (
        gate (is_empty_label_selector s) (own_namespace i j) _ (selector s)
          (addresses (some c) (every_address i j)))
    by_parts none none (some n) = rw (and_true (is_empty_label_selector n)) (
        gate (is_empty_label_selector n) (every_namespace i j) none (selector n)
          (addresses none (every_address i j)))
    by_parts (some c) none (some n) = rw (and_true (is_empty_label_selector n)) (
        gate (is_empty_label_selector n) (every_namespace i j) _ (selector n)
          (addresses (some c) (every_address i j)))
    by_parts none (some s) (some n) = rw (and_false (is_empty_label_selector s)) (
        gate (is_empty_label_selector n && is_empty_label_selector s) (every_namespace i j) none
          (one_of (is_empty_label_selector s) (is_empty_label_selector n) (selector s) (selector n))
          (addresses none (every_address i j)))
    by_parts (some c) (some s) (some n) = rw (and_false (is_empty_label_selector s)) (
        gate (is_empty_label_selector n && is_empty_label_selector s) (every_namespace i j) _
          (one_of (is_empty_label_selector s) (is_empty_label_selector n) (selector s) (selector n))
          (addresses (some c) (every_address i j)))

peers_error_iff : (i j : ℕ) (l : List Peer) → (peers_error i j l ≡ none) ↔ All IsNarrow l
unfolding peers_error
peers_error_iff i j [] = (λ h. tt, λ h. refl)
peers_error_iff i j (p ∷ l) =
    chain (peer_error i j p) (peers_error i (suc j) l) (peer_error_iff i j p)
      (peers_error_iff i (suc j) l)

rule_error_iff : (i : ℕ) (r : EgressRule) → (rule_error i r.to ≡ none) ↔ IsNarrowRule r
rule_error_iff i r = by_peers r.to
  where
    by_peers : (l : List Peer) → (rule_error i l ≡ none) ↔ ((l ≢ []) × All IsNarrow l)
    by_peers [] = (λ h. absurd (cc h), λ h. absurd (h.0 refl))
    by_peers (p ∷ l) =
        let f = peers_error_iff i 0 (p ∷ l) in (λ h. (λ q. absurd (cc q), f.0 h), λ h. f.1 h.1)

pub egress_error_iff :
    (i : ℕ) (l : List EgressRule) → (egress_error i l ≡ none) ↔ All IsNarrowRule l
unfolding egress_error
egress_error_iff i [] = (λ h. tt, λ h. refl)
egress_error_iff i (r ∷ l) =
    chain (rule_error i r.to) (egress_error (suc i) l) (rule_error_iff i r)
      (egress_error_iff (suc i) l)
