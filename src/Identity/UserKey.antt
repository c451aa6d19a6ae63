-- ===== src/Identity/UserKey.antt =====
-- internal/identity/userkey.go. SHA-256 is a parameter: `sha256` maps bytes to bytes.
use per_user_container_opera.Common.{
  ℕ, zero, suc, ◌≡◌, ◌≢◌, refl, ◌∙◌, sym, ap, [], ◌∷◌, ◌++◌, ◌<◌, ◌≤◌, ◌↔◌, ◌+◌, ◌/◌, ◌%◌, Text,
  codes, ltb, if◌then◌else◌, arith, length, All, take, All-take, length-take_le, append_injective,
}

-- `hex.EncodeToString`.
abbrev pub hex_digit : ℕ → ℕ
hex_digit n = if ltb n 10 then 48 + n else 87 + n

unfoldable pub hex_encode : Text → Text
hex_encode [] = []
hex_encode (b ∷ s) = hex_digit (b / 16) ∷ hex_digit (b % 16) ∷ hex_encode s

-- What is hashed: the three parts, with a zero byte between them.
unfoldable pub key_material : Text → Text → Text → Text
key_material namespace app_name raw = namespace ++ (0 ∷ app_name ++ (0 ∷ raw))

unfoldable pub user_key : (Text → Text) → Text → Text → Text → Text
unfolding key_material
user_key sha256 namespace app_name raw =
    codes "u-" ++ take 16 (hex_encode (sha256 (key_material namespace app_name raw)))

unfoldable pub child_name : Text → Text → Text
child_name app_name key = app_name ++ (codes "-" ++ key)

-- No byte is zero.
abbrev pub NoZero : Text → Type 0
NoZero s = All (λ b. b ≢ 0) s

-- A separator splits a text in one way.
split_at_zero :
    (s t u v : Text) → NoZero s → NoZero t → s ++ (0 ∷ u) ≡ t ++ (0 ∷ v) → (s ≡ t) × (u ≡ v)
split_at_zero [] [] u v hs ht e = (refl, cc e)
split_at_zero [] (b ∷ t) u v hs ht e = absurd (ht.0 (cc e))
split_at_zero (a ∷ s) [] u v hs ht e = absurd (hs.0 (cc e))
split_at_zero (a ∷ s) (b ∷ t) u v hs ht e =
    let r = split_at_zero s t u v hs.1 ht.1 (cc e) in ((λ i. a_is_b e i ∷ r.0 i), r.1)
  where
    a_is_b : (a ∷ s ++ (0 ∷ u)) ≡ (b ∷ t ++ (0 ∷ v)) → a ≡ b
    a_is_b h = cc h

-- The hashed bytes tell the three parts apart: if namespaces and app names have no zero byte, two
-- triples with the same key material are the same triple, whatever the identities hold.
pub key_material_injective :
    (n a r m b q : Text)
    → NoZero n
    → NoZero a
    → NoZero m
    → NoZero b
    → key_material n a r ≡ key_material m b q
    → (n ≡ m) × (a ≡ b) × (r ≡ q)
unfolding key_material
key_material_injective n a r m b q hn ha hm hb e =
    let first = split_at_zero n m (a ++ (0 ∷ r)) (b ++ (0 ∷ q)) hn hm e in
    let second = split_at_zero a b r q ha hb first.1 in (first.0, second.0, second.1)

abbrev pub IsByte : ℕ → Type 0
IsByte b = b < 256

hex_digit_injective : (a b : ℕ) → a < 16 → b < 16 → hex_digit a ≡ hex_digit b → a ≡ b
hex_digit_injective a b ha hb e = ground arith

hex_byte_injective :
    (a b : ℕ)
    → a < 256
    → b < 256
    → hex_digit (a / 16) ≡ hex_digit (b / 16)
    → hex_digit (a % 16) ≡ hex_digit (b % 16)
    → a ≡ b
hex_byte_injective a b ha hb e f = omega (
  arith,
  hex_digit_injective (a / 16) (b / 16) (omega arith) (omega arith) e,
  hex_digit_injective (a % 16) (b % 16) (omega arith) (omega arith) f,
)

hex_encode_injective :
    (s t : Text) → All IsByte s → All IsByte t → hex_encode s ≡ hex_encode t → s ≡ t
unfolding hex_encode
hex_encode_injective [] [] hs ht e = refl
hex_encode_injective [] (b ∷ t) hs ht e = cc
hex_encode_injective (a ∷ s) [] hs ht e = cc
hex_encode_injective (a ∷ s) (b ∷ t) hs ht e = λ i.
    hex_byte_injective a b hs.0 ht.0 (cc e) (cc e) i ∷ hex_encode_injective s t hs.1 ht.1 (cc e) i

abbrev double : ℕ → ℕ
double zero = 0
double (suc n) = suc (suc (double n))

take-hex_encode : (k : ℕ) (s : Text) → take (double k) (hex_encode s) ≡ hex_encode (take k s)
unfolding hex_encode
take-hex_encode zero s = refl
take-hex_encode (suc k) [] = refl
take-hex_encode (suc k) (b ∷ s) =
    ap (λ (t : Text). hex_digit (b / 16) ∷ hex_digit (b % 16) ∷ t) (take-hex_encode k s)

length-hex_encode : (s : Text) → length (hex_encode s) ≡ length s + length s
unfolding hex_encode
length-hex_encode [] = omega arith
length-hex_encode (b ∷ s) = omega (arith, length-hex_encode s)

-- Two users get the same key exactly when the first 8 bytes of their hashes are the same.
user_key_iff :
    (sha256 : Text → Text)
    → ((m : Text) → All IsByte (sha256 m))
    → (n a r m b q : Text)
    → (user_key sha256 n a r ≡ user_key sha256 m b q)
      ↔ (take 8 (sha256 (key_material n a r)) ≡ take 8 (sha256 (key_material m b q)))
unfolding user_key
user_key_iff sha256 bytes n a r m b q =
    let x = sha256 (key_material n a r) in
    let y = sha256 (key_material m b q) in
    let hx = All-take IsByte 8 x (bytes (key_material n a r)) in
    let hy = All-take IsByte 8 y (bytes (key_material m b q)) in
    (
      λ e.
          let f : take 16 (hex_encode x) ≡ take 16 (hex_encode y) = cc e in
          hex_encode_injective (take 8 x) (take 8 y) hx hy
            (sym (take-hex_encode 8 x) ∙ f ∙ take-hex_encode 8 y),
      λ e.
          ap (λ (t : Text). codes "u-" ++ t)
            (take-hex_encode 8 x ∙ ap hex_encode e ∙ sym (take-hex_encode 8 y)),
    )

-- A key has 18 bytes if the hash has at least 8.
pub length-user_key :
    (sha256 : Text → Text) (n a r : Text)
    → 8 ≤ length (sha256 (key_material n a r))
    → length (user_key sha256 n a r) ≡ 18
unfolding user_key
length-user_key sha256 n a r h =
    let x = sha256 (key_material n a r) in
    omega
      (arith, ap length (take-hex_encode 8 x), length-hex_encode (take 8 x), length-take_le 8 x h)

-- Names with keys of one length come from one app name and one key.
pub child_name_injective :
    (a k b j : Text) → length k ≡ length j → child_name a k ≡ child_name b j → (a ≡ b) × (k ≡ j)
unfolding child_name
child_name_injective a k b j h e =
    let r = append_injective a b (45 ∷ k) (45 ∷ j) (omega arith) e in (r.0, cc r.1)

-- Two users' resources have the same name only if they belong to one app and their hashes agree in
-- the first 8 bytes. (Every hash has at least 8 bytes, each below 256.)
child_name-user_key :
    (sha256 : Text → Text)
    → ((m : Text) → All IsByte (sha256 m))
    → ((m : Text) → 8 ≤ length (sha256 m))
    → (n a r m b q : Text)
    → child_name a (user_key sha256 n a r) ≡ child_name b (user_key sha256 m b q)
    → (a ≡ b) × (take 8 (sha256 (key_material n a r)) ≡ take 8 (sha256 (key_material m b q)))
child_name-user_key sha256 bytes long n a r m b q e =
    let split =
      child_name_injective a (user_key sha256 n a r) b (user_key sha256 m b q)
        (length-user_key sha256 n a r (long (key_material n a r))
          ∙ sym (length-user_key sha256 m b q (long (key_material m b q))))
        e in
    (split.0, (user_key_iff sha256 bytes n a r m b q).0 split.1)
