-- ===== src/Examples/Identities.antt =====
-- The identity theorems at concrete inputs.
use per_user_container_opera.Common.{◌≡◌, refl, ◌↔◌, [], ◌∷◌, Text, codes, pos, text_eq, arith}
use per_user_container_opera.Identity.Extract.{
  Header, identity, rejected, reserved, shared, extract, is_blank,
}
use per_user_container_opera.Identity.Extract.Laws.{IsTrusted, extract_iff}
use per_user_container_opera.Identity.UserKey.{key_material_injective}

abbrev alice : Header
alice = λ name. codes "alice@example.org" ∷ []

abbrev nobody : Header
nobody = λ name. []

abbrev claims_shared : Header
claims_shared = λ name. shared ∷ []

abbrev user : Text
user = codes "X-User"

extract-alice : extract alice user (pos 64) ≡ identity (codes "alice@example.org")
unfolding extract is_blank text_eq
extract-alice = refl

extract-shared :
    extract claims_shared user (pos 64) ≡ rejected (record { reason = reserved; status = 400 })
unfolding extract is_blank text_eq
extract-shared = refl

extract_iff_example : (extract alice user (pos 64) ≡ identity (codes "alice@example.org")) ↔ (
    (alice user ≡ codes "alice@example.org" ∷ []) × IsTrusted (pos 64) (codes "alice@example.org"))
extract_iff_example = extract_iff alice user (pos 64) (codes "alice@example.org")

key_material_injective_example :
    (codes "dev" ≡ codes "dev") × (codes "ide" ≡ codes "ide") × (codes "bob" ≡ codes "bob")
key_material_injective_example =
    key_material_injective (codes "dev") (codes "ide") (codes "bob") (codes "dev") (codes "ide")
      (codes "bob") (omega arith) (omega arith) (omega arith) (omega arith) refl

-- A hash of one value.
abbrev constant : Text → Text
constant m = codes "0123456789abcdef"
