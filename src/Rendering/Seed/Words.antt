-- ===== src/Rendering/Seed/Words.antt =====
-- How a shell reads what internal/controller/render.go quotes.
use per_user_container_opera.Common.{
  ℕ, ◌≡◌, ◌⊎◌, refl, ap, ◌∙◌, sym, Bool, true, false, ◌||◌, ◌&&◌, Option, none, some, List, [], ◌∷◌,
  ◌++◌, Text, codes, ◌==◌, leb, inl, inr, Bool-cases, ==_iff,
}
use mathlib.Core.List.{append_assoc, append-nil}
use per_user_container_opera.Rendering.Seed.{
  escape_quotes, shell_single_quote, copies_contents, seed_script,
}

-- A POSIX shell's reading of words: outside quotes, inside single quotes, or after a backslash.
pub data Mode : Type 0 where
  bare quoted escaped : Mode

-- The letters, digits and punctuation that stand for themselves outside quotes.
abbrev pub is_plain : ℕ → Bool
is_plain b =
    (leb b'a' b && leb b b'z')
    || (leb b'A' b && leb b b'Z')
    || (leb b'0' b && leb b b'9')
    || b == b'-'
    || b == b'_'
    || b == b'/'
    || b == b'.'

-- The word that is under way, if one is, and the words after it.
abbrev pub Reading : Type 0
Reading = Option Text × List Text

abbrev pub prefixed : Text → Reading → Reading
prefixed s (none, ws) = (some s, ws)
prefixed s (some w, ws) = (some (s ++ w), ws)

abbrev pub broken : Reading → Reading
broken (none, ws) = (none, ws)
broken (some w, ws) = (none, w ∷ ws)

abbrev pub each : (Reading → Reading) → Option Reading → Option Reading
each f none = none
each f (some r) = some (f r)

-- A text that a shell would expand, or that ends in the middle, is not read.
unfoldable pub read_words : Mode → Text → Option Reading
read_words bare [] = some (none, [])
read_words quoted [] = none
read_words escaped [] = none
read_words bare (b ∷ s) = elim (b == b' ') [
  | true ↦ each broken (read_words bare s)
  | false ↦ elim (b == b'\'') [
    | true ↦ each (prefixed []) (read_words quoted s)
    | false ↦ elim (b == b'\\') [
      | true ↦ read_words escaped s
      | false ↦ elim (is_plain b) [
        | true ↦ each (prefixed (b ∷ [])) (read_words bare s)
        | false ↦ none
      ]
    ]
  ]
]
read_words quoted (b ∷ s) = elim (b == b'\'') [
  | true ↦ each (prefixed []) (read_words bare s)
  | false ↦ each (prefixed (b ∷ [])) (read_words quoted s)
]
read_words escaped (b ∷ s) = each (prefixed (b ∷ [])) (read_words bare s)

abbrev pub words_of : Reading → List Text
words_of (none, ws) = ws
words_of (some w, ws) = w ∷ ws

abbrev pub words : Text → Option (List Text)
words s = elim (read_words bare s) [ none ↦ none | some r ↦ some (words_of r) ]

prefixed-cons :
    (b : ℕ) (s : Text) (r : Option Reading)
    → each (prefixed (b ∷ [])) (each (prefixed s) r) ≡ each (prefixed (b ∷ s)) r
prefixed-cons b s none = refl
prefixed-cons b s (some (none, ws)) = refl
prefixed-cons b s (some (some w, ws)) = refl

prefixed_nil :
    (s : Text) (r : Option Reading) → each (prefixed []) (each (prefixed s) r) ≡ each (prefixed s) r
prefixed_nil s none = refl
prefixed_nil s (some (none, ws)) = refl
prefixed_nil s (some (some w, ws)) = refl

quoted_plain :
    (b : ℕ) (s : Text)
    → (b == b'\'') ≡ false
    → read_words quoted (b ∷ s) ≡ each (prefixed (b ∷ [])) (read_words quoted s)
unfolding read_words
quoted_plain b s e = rw (e, read_words) refl

-- Inside quotes, what was escaped is read as it was, up to the closing quote.
read_words-escape :
    (s rest : Text)
    → read_words quoted (escape_quotes s ++ (b'\'' ∷ rest))
      ≡ each (prefixed s) (read_words bare rest)
unfolding read_words escape_quotes
read_words-escape [] rest = refl
read_words-escape (b ∷ s) rest = elim (Bool-cases (b == b'\'')) [
  | inl e ↦ rw e (
      rw (read_words-escape s rest) (
        prefixed_nil (b'\'' ∷ []) _
        ∙ ap (each (prefixed (b'\'' ∷ []))) (prefixed_nil s (read_words bare rest))
        ∙ prefixed-cons b'\'' s (read_words bare rest)
        ∙ ap (λ (c : ℕ). each (prefixed (c ∷ s)) (read_words bare rest))
            (sym ((==_iff b b'\'').0 e))))
  | inr e ↦ rw e (
      quoted_plain b (escape_quotes s ++ (b'\'' ∷ rest)) e
      ∙ ap (each (prefixed (b ∷ []))) (read_words-escape s rest)
      ∙ prefixed-cons b s (read_words bare rest))
]

-- Where a word may begin, a shell reads a quoted text as exactly that text, whatever bytes it has,
-- and goes on behind it with the word still under way.
pub read_words-quote :
    (s rest : Text)
    → read_words bare (shell_single_quote s ++ rest) ≡ each (prefixed s) (read_words bare rest)
unfolding read_words shell_single_quote
read_words-quote s rest =
    rw (append_assoc (escape_quotes s) (b'\'' ∷ []) rest)
      (ap (each (prefixed [])) (read_words-escape s rest) ∙ prefixed_nil s (read_words bare rest))

-- What the words are once `cp -an` is read before them.
abbrev after_cp : Option Reading → Option (List Text)
after_cp r =
    elim (each (prefixed (codes "c")) (
      each (prefixed (codes "p")) (
        each broken (
          each (prefixed (codes "-"))
            (each (prefixed (codes "a")) (each (prefixed (codes "n")) (each broken r))))))) [
              | none ↦ none
              | some w ↦ some (words_of w)
            ]

last_word : (s : Text) → read_words bare (shell_single_quote s) ≡ some (some s, [])
unfolding read_words
last_word s = ap (read_words bare) (sym (append-nil (shell_single_quote s))) ∙ read_words-quote s []

-- What the words are once `cd` is read before them.
abbrev after_cd : Option Reading → Option (List Text)
after_cd r = elim (each (prefixed (codes "c")) (each (prefixed (codes "d")) (each broken r))) [
  | none ↦ none
  | some w ↦ some (words_of w)
]

-- The command that copies what a text of the shell stands for to the staging path, and the one that
-- goes to a directory.
abbrev pub copy_command : Text → Text → Text
copy_command what staging =
    codes "cp -an " ++ (what ++ (codes " " ++ shell_single_quote (staging ++ codes "/")))

abbrev pub change_command : Text → Text
change_command from = codes "cd " ++ shell_single_quote from

-- The words of a copy.
abbrev pub copying : Text → Text → List Text
copying what staging = codes "cp" ∷ codes "-an" ∷ what ∷ (staging ++ codes "/") ∷ []

-- A shell's loop over every entry of a directory, those that a bare star skips too, with a command.
abbrev pub over_entries : Text → Text
over_entries command =
    codes "for e in .[!.]* ..?* *; do [ -e \"$e\" ] || continue; " ++ (command ++ codes "; done")

copy_command-words :
    (what staging : Text)
    → words (copy_command (shell_single_quote what) staging) ≡ some (copying what staging)
unfolding read_words shell_single_quote
copy_command-words what staging = ap after_cp (
    read_words-quote what (b' ' ∷ shell_single_quote (staging ++ codes "/"))
    ∙ ap (λ (r : Option Reading). each (prefixed what) (each broken r))
        (last_word (staging ++ codes "/")))

change_command-words : (from : Text) → words (change_command from) ≡ some (codes "cd" ∷ from ∷ [])
unfolding read_words shell_single_quote
change_command-words from = ap after_cd (last_word from)

-- The seed script, with every path as one word, byte for byte, whatever is in it. If the source is not
-- to be copied by its contents, the script is one command, whose words are `cp -an`, the source and
-- the staging path with a slash. If it is, the script goes, in a command whose words are `cd` and the
-- source, to the source, and then has the loop over the entries of the directory, whose command, for
-- an entry of whatever name, has the words `cp -an`, that name and the staging path with a slash; it
-- stops if a command fails.
pub seed_script-words :
    (from staging : Text)
    → ((copies_contents from ≡ false)
        × (words (seed_script from staging) ≡ some (copying from staging)))
      ⊎ ((copies_contents from ≡ true)
          × (seed_script from staging
              ≡ codes "set -e\n"
                ++ (change_command from
                    ++ (codes "\n" ++ over_entries (copy_command (codes "\"$e\"") staging))))
          × (words (change_command from) ≡ some (codes "cd" ∷ from ∷ []))
          × ((entry : Text)
              → words (copy_command (shell_single_quote entry) staging)
                ≡ some (copying entry staging)))
unfolding seed_script
seed_script-words from staging = elim (Bool-cases (copies_contents from)) [
  | inl e ↦ inr (e, rw e refl, change_command-words from, λ entry. copy_command-words entry staging)
  | inr e ↦ inl (e, rw e (copy_command-words from staging))
]
