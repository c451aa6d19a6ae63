-- ===== src/Identity/Extract/Laws.antt =====
-- Which header values are trusted, and how the others are rejected (internal/identity/identity.go).
use per_user_container_opera.Common.{
  ℕ, ◌≡◌, ◌≢◌, refl, ◌∙◌, sym, ap, subst, ◌↔◌, Bool, true, false, ◌&&◌, List, [], ◌∷◌, ◌≤◌, Text,
  text_eq, text_eq_iff, ltb_ℤ, ℤ, pos, ◌≤ℤ◌, ◌==◌, arith, length, all, All,
}
use per_user_container_opera.Identity.Extract.{
  Reason, Rejection, Header, status_unauthorized, status_bad_request, shared, has_comma, space1,
  space2, space3, is_blank, is_printable, extract_value, extract_values, extract, missing, empty,
  too_long, duplicate, invalid, reserved, identity, rejected,
}

-- A byte that an identity may hold.
abbrev pub IsPlain : ℕ → Type 0
IsPlain b = (32 ≤ b) × (b ≤ 126) × (b ≢ 44)

-- What a value must be to be trusted: visible ASCII with no comma, not all spaces, within the
-- limit, and not the reserved identity.
pub record IsTrusted (max_length : ℤ) (raw : Text) : Type 0 where
  pub plain : All IsPlain raw
  pub visible : all (λ b. b == 32) raw ≡ false
  pub fits : pos (length raw) ≤ℤ max_length
  pub not_shared : raw ≢ shared

IsPlain-of_tests :
    (raw : Text) → has_comma raw ≡ false → all is_printable raw ≡ true → All IsPlain raw
IsPlain-of_tests [] h k = tt
IsPlain-of_tests (b ∷ raw) h k = (ground arith, IsPlain-of_tests raw (ground arith) (ground arith))

tests_of_plain :
    (raw : Text) → All IsPlain raw → (has_comma raw ≡ false) × (all is_printable raw ≡ true)
tests_of_plain [] h = (refl, refl)
tests_of_plain (b ∷ raw) h = ground (arith, tests_of_plain raw h.1)

space1_plain : (a : ℕ) → IsPlain a → space1 a ≡ (a == 32)
unfolding space1
space1_plain a h = ground arith

space2_plain : (a b : ℕ) → IsPlain a → space2 a b ≡ false
unfolding space2
space2_plain a b h = ground arith

space3_plain : (a b c : ℕ) → IsPlain a → space3 a b c ≡ false
unfolding space3
space3_plain a b c h = ground arith

-- What `is_blank` does with the outcome of its three tests.
abbrev blank_tests : Bool → Bool → Bool → ℕ → ℕ → Text → Bool
blank_tests t u v b c r = elim t [
  | true ↦ is_blank (b ∷ c ∷ r)
  | false ↦ elim u [
    | true ↦ is_blank (c ∷ r)
    | false ↦ elim v [ true ↦ is_blank r | false ↦ false ]
  ]
]

is_blank_step :
    (a b c : ℕ) (r : Text)
    → IsPlain a
    → is_blank (a ∷ b ∷ c ∷ r) ≡ (a == 32 && is_blank (b ∷ c ∷ r))
unfolding is_blank
is_blank_step a b c r h =
    (λ i. blank_tests (space1_plain a h i) (space2_plain a b h i) (space3_plain a b c h i) b c r)
    ∙ split (a == 32)
  where
    split : (t : Bool) → blank_tests t false false b c r ≡ (t && is_blank (b ∷ c ∷ r))
    split true = refl
    split false = refl

-- Among printable bytes the space is the only white space.
is_blank-plain : (raw : Text) → All IsPlain raw → is_blank raw ≡ all (λ b. b == 32) raw
unfolding is_blank
is_blank-plain [] h = refl
is_blank-plain (a ∷ []) h = ground arith
is_blank-plain (a ∷ b ∷ []) h = ground arith
is_blank-plain (a ∷ b ∷ c ∷ r) h =
    is_blank_step a b c r h.0 ∙ ap (◌&&◌ (a == 32)) (is_blank-plain (b ∷ c ∷ r) h.1)

-- All tests of the code passed.
record Passes (max_length : ℤ) (value : Text) : Type 0 where
  comma : has_comma value ≡ false
  blank : is_blank value ≡ false
  long : ltb_ℤ max_length (pos (length value)) ≡ false
  ascii : all is_printable value ≡ true
  free : text_eq value shared ≡ false

extract_value-inv :
    (raw value : Text) (max_length : ℤ)
    → extract_value value max_length ≡ identity raw
    → (value ≡ raw) × Passes max_length value
unfolding extract_value
extract_value-inv raw value max_length h = (
  ground arith,
  record {
    comma = ground arith;
    blank = ground arith;
    long = ground arith;
    ascii = ground arith;
    free = ground arith;
  },
)

Passes-IsTrusted :
    (max_length : ℤ) (value : Text) → Passes max_length value → IsTrusted max_length value
Passes-IsTrusted m value p =
    let plain = IsPlain-of_tests value p.comma p.ascii in
    record {
      plain = plain;
      visible = sym (is_blank-plain value plain) ∙ p.blank;
      fits = ground (arith, p.long);
      not_shared = λ e. cc (p.free, (text_eq_iff value shared).1 e);
    }

IsTrusted-Passes :
    (max_length : ℤ) (value : Text) → IsTrusted max_length value → Passes max_length value
IsTrusted-Passes m value t =
    let tests = tests_of_plain value t.plain in
    record {
      comma = tests.0;
      blank = is_blank-plain value t.plain ∙ t.visible;
      long = ground (arith, t.fits);
      ascii = tests.1;
      free = ground (arith, text_eq_iff value shared, t.not_shared);
    }

extract_value-Passes :
    (value : Text) (max_length : ℤ)
    → Passes max_length value
    → extract_value value max_length ≡ identity value
unfolding extract_value
extract_value-Passes value m p = rw (p.comma, p.blank, p.long, p.ascii, p.free)

extract_values_iff :
    (values : List Text) (max_length : ℤ) (raw : Text)
    → (extract_values values max_length ≡ identity raw)
      ↔ ((values ≡ raw ∷ []) × IsTrusted max_length raw)
unfolding extract_values
extract_values_iff [] m raw = (λ h. absurd (ground arith), λ h. absurd (ground (arith, h.0)))
extract_values_iff (v ∷ []) m raw = (
  λ h.
      let r = extract_value-inv raw v m h in
      (ap (λ (x : Text). x ∷ []) r.0, subst (IsTrusted m) r.0 (Passes-IsTrusted m v r.1)),
  λ h.
      let e : v ≡ raw = cc h.0 in
      subst (λ (x : Text). extract_value x m ≡ identity raw) (sym e)
        (extract_value-Passes raw m (IsTrusted-Passes m raw h.1)),
)
extract_values_iff (v ∷ u ∷ more) m raw =
    (λ h. absurd (ground arith), λ h. absurd (ground (arith, h.0)))

-- `Extract` returns an identity exactly when the header has one value, that value is trusted, and
-- it is returned as it is: never truncated, never a default, never the shared identity.
pub extract_iff :
    (h : Header) (header : Text) (max_length : ℤ) (raw : Text)
    → (extract h header max_length ≡ identity raw)
      ↔ ((h header ≡ raw ∷ []) × IsTrusted max_length raw)
unfolding extract
extract_iff h header max_length raw = extract_values_iff (h header) max_length raw

-- The status that belongs to a reason.
abbrev pub status_of : Reason → ℕ
status_of missing = status_unauthorized
status_of empty = status_unauthorized
status_of too_long = status_unauthorized
status_of duplicate = status_bad_request
status_of invalid = status_bad_request
status_of reserved = status_bad_request

extract_value-rejected :
    (value : Text) (m : ℤ) (r : Rejection)
    → extract_value value m ≡ rejected r
    → (r.status ≡ status_of r.reason) × (r.reason ≢ missing)
unfolding extract_value
extract_value-rejected value m r h = ground arith

extract_values-rejected :
    (values : List Text) (m : ℤ) (r : Rejection)
    → extract_values values m ≡ rejected r
    → (r.status ≡ status_of r.reason) × ((r.reason ≡ missing) ↔ (values ≡ []))
unfolding extract_values
extract_values-rejected [] m r h = ground arith
extract_values-rejected (v ∷ []) m r h =
    let t = extract_value-rejected v m r h in
    (t.0, (λ e. absurd (t.1 e), λ e. absurd (ground (arith, e))))
extract_values-rejected (v ∷ u ∷ more) m r h =
    (ground arith, (λ e. absurd (ground (arith, e)), λ e. absurd (ground (arith, e))))

-- A rejection carries the status of its reason (401 for missing, empty and too long, 400 for
-- duplicate, invalid and reserved), and its reason is `missing` exactly when the header is absent:
-- no value that a caller sends can pass for a request without the header.
pub extract-rejected :
    (h : Header) (header : Text) (max_length : ℤ) (r : Rejection)
    → extract h header max_length ≡ rejected r
    → (r.status ≡ status_of r.reason) × ((r.reason ≡ missing) ↔ (h header ≡ []))
unfolding extract
extract-rejected h header m r e = extract_values-rejected (h header) m r e
