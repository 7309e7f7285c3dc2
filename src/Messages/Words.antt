-- ===== src/Messages/Words.antt =====
-- noyau/messages.ts and noyau/texte.ts: names and past endorsements in prose.
use paraphe.Common.{
  Bool, true, false, not, ◌&&◌, ◌||◌, Option, none, some, List, [], ◌∷◌, ◌++◌, map, Text, codes,
  text_eq, ◌==◌, ltb, if◌then◌else◌, keep, any, drop, length, starts_with,
}
use paraphe.Csv.{join}
use paraphe.Texte.Controls.{is_space, is_nil}
use paraphe.Texte.Unicode.{Unicode}
use paraphe.Messages.Render.{split}

-- `s.split(/\s+/).filter(Boolean)`, with the word under way.
unfoldable pub words_from : Text → Text → List Text
unfolding is_space
words_from word [] = if is_nil word then [] else word ∷ []
words_from word (c ∷ s) = elim (is_space c) [
  | true ↦ let rest = words_from [] s in if is_nil word then rest else word ∷ rest
  | false ↦ words_from (word ++ c ∷ []) s
]

-- `s.slice(0, sep)` and `s.slice(sep + mark.length)` for `sep = s.indexOf(mark)`
unfoldable pub cut_at : Text → Text → Option (Text × Text)
unfolding starts_with
cut_at [] mark = none
cut_at (c ∷ s) mark = elim (starts_with (c ∷ s) mark) [
  | true ↦ some ([], drop (length mark) (c ∷ s))
  | false ↦ elim (cut_at s mark) [ none ↦ none | some (before, after) ↦ some (c ∷ before, after) ]
]

abbrev is_class : Text → Bool
is_class (c ∷ d ∷ e ∷ f ∷ []) = is_space c && d == b'(' && (e == b'A' || e == b'B') && f == b')'
is_class _ = false

-- `s.replace(/\s\([AB]\)$/, "")`
unfoldable pub strip_class : Text → Text
unfolding is_space
strip_class [] = []
strip_class (c ∷ s) = let rest = strip_class s in if is_class (c ∷ s) then [] else c ∷ rest

-- `years.get(cand)`, with the years in the order in which they were added.
abbrev pub Years : Type 0
Years = List (Text × List Text)

-- The end of a round of the loop of `readableHistory`.
unfoldable pub add_year : Years → Text → Text → Years
unfolding text_eq
add_year [] cand year = (cand, year ∷ []) ∷ []
add_year ((k, seen) ∷ years) cand year =
    if text_eq k cand
    then (k, (if any (text_eq year) seen then seen else seen ++ year ∷ [])) ∷ years
    else (k, seen) ∷ add_year years cand year

-- `s < t`
unfoldable pub text_lt : Text → Text → Bool
text_lt s [] = false
text_lt [] (d ∷ t) = true
text_lt (c ∷ s) (d ∷ t) = if ltb c d then true else if c == d then text_lt s t else false

abbrev insert : Text → List Text → List Text
insert x [] = x ∷ []
insert x (y ∷ ys) = if text_lt y x then y ∷ insert x ys else x ∷ y ∷ ys

-- `[...ys].sort()`
unfoldable pub sort_texts : List Text → List Text
unfolding text_lt
sort_texts [] = []
sort_texts (x ∷ xs) = insert x (sort_texts xs)

module _ (unicode : Unicode) where
  open unicode use {is_letter, to_upper, to_lower}

  -- `isUppercase`
  unfoldable pub is_uppercase : Text → Bool
  unfolding text_eq
  is_uppercase s = any is_letter s && text_eq s (to_upper s) && not (text_eq s (to_lower s))

  -- The loop of `titleCase`, with `previousIsLetter`.
  unfoldable pub title_from : Bool → Text → Text
  title_from previous [] = []
  title_from previous (c ∷ s) =
      (if is_letter c && not previous then to_upper (c ∷ []) else to_lower (c ∷ []))
      ++ title_from (is_letter c) s

  unfoldable pub title_case : Text → Text
  unfolding title_from
  title_case s = title_from false s

  unfoldable pub prose_name : Text → Text
  unfolding words_from is_uppercase title_case join
  prose_name candidate =
      let words = words_from [] candidate in
      join (keep (λ w. not (is_uppercase w)) words ++ map title_case (keep is_uppercase words))
        (codes " ")

  -- The loop of `readableHistory`.
  unfoldable pub read_history : List Text → Years → Years
  unfolding cut_at strip_class prose_name add_year
  read_history [] years = years
  read_history (t ∷ ts) years = elim (cut_at t (codes ": ")) [
    | none ↦ read_history ts years
    | some (year, after) ↦ read_history ts (add_year years (prose_name (strip_class after)) year)
  ]

  unfoldable pub readable_history : Text → Text
  unfolding read_history split join sort_texts
  readable_history hist =
      join
        (map (λ (cand, ys). cand ++ (codes " en " ++ join (sort_texts ys) (codes " et ")))
          (read_history (split hist (codes " | ")) []))
        (codes ", ")

  -- One entry of `endorsementsProse`; `none` is one that the filter drops.
  unfoldable pub endorsements_from : List Text → List Text
  unfolding cut_at strip_class prose_name
  endorsements_from [] = []
  endorsements_from (t ∷ ts) = elim (cut_at t (codes ": ")) [
    | none ↦ endorsements_from ts
    | some (year, after) ↦
        (prose_name (strip_class after) ++ (codes " (" ++ (year ++ codes ")")))
        ∷ endorsements_from ts
  ]

  unfoldable pub endorsements_prose : Text → Text
  unfolding endorsements_from split join
  endorsements_prose raw = join (endorsements_from (split raw (codes " | "))) (codes ", ")
