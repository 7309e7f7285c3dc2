-- ===== src/Messages/Commune.antt =====
-- noyau/messages.ts: `elidedCommune`, the name of a commune behind « Mairie ».
pub mod Elision
use paraphe.Common.{
  ℕ, zero, suc, ◌+◌, Bool, true, false, ◌&&◌, ◌||◌, Option, none, some, List, [], ◌∷◌, ◌++◌, Text,
  codes, text_eq, ◌==◌, ◌>>=◌, leb, if◌then◌else◌, any, drop, length, starts_with,
}
use paraphe.Texte.Controls.{trim, trim_start}
use paraphe.Texte.Unicode.{Unicode}

-- The lower case of the letters of ASCII, which is all that the flag `i` changes in an article.
abbrev lower_ascii : Text → Text
lower_ascii [] = []
lower_ascii (c ∷ s) = (if leb 65 c && leb c 90 then c + 32 else c) ∷ lower_ascii s

-- `/^l['’]$/i`
unfoldable pub is_glued : Text → Bool
unfolding text_eq
is_glued article = let a = lower_ascii article in text_eq a (codes "l'") || text_eq a (codes "l’")

abbrev is_article : Text → Bool
is_article article =
    let a = lower_ascii article in
    text_eq a (codes "le") || text_eq a (codes "la") || text_eq a (codes "les") || is_glued article

-- The text before a closing bracket that ends the text.
unfoldable pub before_bracket : Text → Option Text
before_bracket [] = none
before_bracket (c ∷ []) = if c == b')' then some [] else none
before_bracket (c ∷ d ∷ s) = do body ← before_bracket (d ∷ s); some (c ∷ body)

abbrev pub check_article : Text → Option Text
check_article article = if is_article article then some article else none

-- The article of `/^\((le|la|les|l['’])\)$/i`
unfoldable pub bracketed : Text → Option Text
unfolding before_bracket is_glued text_eq
bracketed [] = none
bracketed (c ∷ s) = if c == b'(' then before_bracket s >>= check_article else none

abbrev skip_comma : Text → Text
skip_comma [] = []
skip_comma (c ∷ s) = if c == b',' then s else c ∷ s

-- What `.` does not match.
abbrev is_terminator : ℕ → Bool
is_terminator c = c == 10 || c == 13 || c == 0x2028 || c == 0x2029

abbrev pub take_back : ℕ → Text × Text → Option (Text × Text)
take_back c (bare, article) = if is_terminator c then none else some (c ∷ bare, article)

-- The match of `/^(.*?),?\s*\((le|la|les|l['’])\)$/i`: the bare name and the article.
unfoldable pub inverted : Text → Option (Text × Text)
inverted [] = none
inverted (c ∷ s) = elim (bracketed (trim_start (skip_comma (c ∷ s)))) [
  | some article ↦ some ([], article)
  | none ↦ inverted s >>= take_back c
]

-- The name with its article in front.
unfoldable pub reordered : Text → Text → Text
unfolding is_glued trim
reordered bare article =
    if is_glued article then article ++ trim bare else article ++ (codes " " ++ trim bare)

-- `/^[aeiouyàâäéèêëîïôöùûüœæ]/i`
unfoldable pub starts_with_vowel : Text → Bool
starts_with_vowel [] = false
starts_with_vowel (c ∷ s) = any (λ v. c == v) (codes "aeiouyàâäéèêëîïôöùûüœæAEIOUYÀÂÄÉÈÊËÎÏÔÖÙÛÜŒÆ")

module _ (unicode : Unicode) where
  -- The rules for a name whose article is in front.
  unfoldable pub elided : Text → Text
  unfolding starts_with starts_with_vowel
  elided commune =
      let lower = unicode.to_lower commune in
      if starts_with lower (codes "le ")
      then codes "du " ++ drop 3 commune
      else if starts_with lower (codes "les ")
      then codes "des " ++ drop 4 commune
      else if starts_with lower (codes "la ")
      then codes "de la " ++ drop 3 commune
      else if starts_with lower (codes "l'") || starts_with lower (codes "l’")
      then codes "de " ++ commune
      else if starts_with_vowel commune
      then codes "d'" ++ commune
      else codes "de " ++ commune

  -- The recursion of `elidedCommune`, with the number of inversions that it may still undo.
  unfoldable pub elided_within : ℕ → Text → Text
  elided_within fuel [] = []
  elided_within zero (c ∷ s) = elided (c ∷ s)
  elided_within (suc fuel) (c ∷ s) = elim (inverted (c ∷ s)) [
    | some (bare, article) ↦ elided_within fuel (reordered bare article)
    | none ↦ elided (c ∷ s)
  ]

  -- An inversion that is undone shortens the name, so there are fewer than its characters.
  unfoldable pub elided_commune : Text → Text
  elided_commune commune = elided_within (length commune) commune
