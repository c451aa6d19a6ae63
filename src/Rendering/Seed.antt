-- ===== src/Rendering/Seed.antt =====
-- internal/controller/render.go, shellSingleQuote and seedScript: the script that fills a new volume.
pub mod Words
use per_user_container_opera.Common.{
  Bool, true, false, ◌||◌, List, [], ◌∷◌, ◌++◌, Text, codes, text_eq, ◌==◌, if◌then◌else◌,
}

-- `strings.ReplaceAll(s, "'", `'\''`)`.
unfoldable pub escape_quotes : Text → Text
escape_quotes [] = []
escape_quotes (b ∷ s) =
    if b == b'\'' then b'\'' ∷ b'\\' ∷ b'\'' ∷ b'\'' ∷ escape_quotes s else b ∷ escape_quotes s

unfoldable pub shell_single_quote : Text → Text
unfolding escape_quotes
shell_single_quote s = b'\'' ∷ escape_quotes s ++ (b'\'' ∷ [])

-- `strings.HasSuffix(from, "/.")`.
unfoldable pub ends_in_dot : Text → Bool
ends_in_dot [] = false
ends_in_dot (b ∷ s) = if text_eq (b ∷ s) (codes "/.") then true else ends_in_dot s

abbrev pub copies_contents : Text → Bool
copies_contents from = text_eq from (codes ".") || ends_in_dot from

unfoldable pub seed_script : Text → Text → Text
unfolding shell_single_quote ends_in_dot
seed_script from staging_mount_path =
    let src = shell_single_quote from in
    let dst = shell_single_quote (staging_mount_path ++ codes "/") in
    if copies_contents from
    then codes "set -e\ncd "
      ++ (src
          ++ (codes "\nfor e in .[!.]* ..?* *; do [ -e \"$e\" ] || continue; cp -an \"$e\" "
              ++ (dst ++ codes "; done")))
    else codes "cp -an " ++ (src ++ (codes " " ++ dst))
