-- ===== src/Identity/Extract.antt =====
-- internal/identity/identity.go. A header set is what `h.Values(name)` answers for each name.
pub mod Laws
use per_user_container_opera.Common.{
  ℕ, ◌≡◌, ◌≢◌, refl, ◌∙◌, sym, ap, subst, ◌↔◌, Bool, true, false, ◌&&◌, ◌||◌, List, [], ◌∷◌, ◌≤◌,
  Text, codes, text_eq, text_eq_iff, ltb_ℤ, ℤ, pos, ◌≤ℤ◌, leb, ◌==◌, if◌then◌else◌, arith, length,
  any, all, All,
}

pub data Reason : Type 0 where
  missing empty too_long duplicate invalid reserved : Reason

-- `Rejection`: the reason, and the HTTP status to answer with.
pub record Rejection : Type 0 where
  pub reason : Reason
  pub status : ℕ

pub data Extracted : Type 0 where
  identity : Text → Extracted
  rejected : Rejection → Extracted

abbrev pub Header : Type 0
Header = Text → List Text

abbrev pub status_unauthorized : ℕ
status_unauthorized = 401

abbrev pub status_bad_request : ℕ
status_bad_request = 400

-- `Shared`.
abbrev pub shared : Text
shared = codes "__shared__"

-- `strings.Contains(raw, ",")`.
abbrev pub has_comma : Text → Bool
has_comma raw = any (λ b. b == b',') raw

-- The white space of `unicode.IsSpace` in UTF-8, by its length in bytes.
unfoldable pub space1 : ℕ → Bool
space1 a = (leb 9 a && leb a 13) || a == 32

unfoldable pub space2 : ℕ → ℕ → Bool
space2 a b = a == 0xc2 && (b == 0x85 || b == 0xa0)

unfoldable pub space3 : ℕ → ℕ → ℕ → Bool
space3 a b c =
    (a == 0xe1 && b == 0x9a && c == 0x80)
    || (a == 0xe2
        && b == 0x80
        && ((leb 0x80 c && leb c 0x8a) || c == 0xa8 || c == 0xa9 || c == 0xaf))
    || (a == 0xe2 && b == 0x81 && c == 0x9f)
    || (a == 0xe3 && b == 0x80 && c == 0x80)

-- `strings.TrimSpace(raw) == ""`.
unfoldable pub is_blank : Text → Bool
unfolding space1 space2 space3
is_blank [] = true
is_blank (a ∷ []) = space1 a
is_blank (a ∷ b ∷ []) = (space1 a && space1 b) || space2 a b
is_blank (a ∷ b ∷ c ∷ r) = elim (space1 a) [
  | true ↦ is_blank (b ∷ c ∷ r)
  | false ↦ elim (space2 a b) [
    | true ↦ is_blank (c ∷ r)
    | false ↦ elim (space3 a b c) [ true ↦ is_blank r | false ↦ false ]
  ]
]

-- The bytes that the loop at the end lets pass.
abbrev pub is_printable : ℕ → Bool
is_printable b = leb 0x20 b && leb b 0x7e

abbrev pub reject : Reason → ℕ → Extracted
reject reason status = rejected (record { reason = reason; status = status })

-- The tests of `Extract` on the only value.
unfoldable pub extract_value : Text → ℤ → Extracted
extract_value raw max_length =
    if has_comma raw
    then reject duplicate status_bad_request
    else if is_blank raw
    then reject empty status_unauthorized
    else if ltb_ℤ max_length (pos (length raw))
    then reject too_long status_unauthorized
    else if all is_printable raw
    then if text_eq raw shared then reject reserved status_bad_request else identity raw
    else reject invalid status_bad_request

-- The `switch` on the number of values, then the tests of the only one.
unfoldable pub extract_values : List Text → ℤ → Extracted
unfolding extract_value
extract_values [] max_length = reject missing status_unauthorized
extract_values (raw ∷ []) max_length = extract_value raw max_length
extract_values (raw ∷ second ∷ more) max_length = reject duplicate status_bad_request

unfoldable pub extract : Header → Text → ℤ → Extracted
unfolding extract_values
extract h header max_length = extract_values (h header) max_length
