-- ===== src/Texte/Norm.antt =====
-- noyau/texte.ts: the normal form in which names are compared.

use paraphe.Common.{
  ℕ, zero, suc, ◌-◌, Bool, true, false, not, ◌&&◌, ◌||◌, Option, none, some, [], ◌∷◌, ◌++◌, Text,
  codes, text_eq, length, leb, ◌==◌, if◌then◌else◌, keep,
}
use paraphe.Texte.Unicode.{Unicode}
use paraphe.Texte.Controls.{is_space, is_nil, starts_space, strip_controls, trim}

-- `s.replaceAll("Œ", "OE").replaceAll("Æ", "AE")`
unfoldable pub replace_ligatures : Text → Text
replace_ligatures [] = []
replace_ligatures (c ∷ s) =
    (if c == 0x152 then codes "OE" else if c == 0xc6 then codes "AE" else c ∷ [])
    ++ replace_ligatures s

-- `[-'’/().]`
unfoldable pub is_separator : ℕ → Bool
is_separator c =
    c == b'-' || c == b'\'' || c == 0x2019 || c == b'/' || c == b'(' || c == b')' || c == b'.'

-- `s.replace(/[-'’/().]/g, " ")`
unfoldable pub replace_separators : Text → Text
replace_separators [] = []
replace_separators (c ∷ s) = (if is_separator c then 32 else c) ∷ replace_separators s

-- `s.replace(/\s+/g, " ")`
unfoldable pub single_spaces : Text → Text
single_spaces [] = []
single_spaces (c ∷ s) =
    let rest = single_spaces s in
    if is_space c then (if starts_space rest then rest else 32 ∷ rest) else c ∷ rest

-- `collapse`, on a text that is empty where `s` is null or undefined.
unfoldable pub collapse : Text → Text
collapse s = trim (single_spaces s)

-- `\w`
unfoldable pub is_word : ℕ → Bool
is_word c =
    (leb b'0' c && leb c b'9')
    || (leb b'A' c && leb c b'Z')
    || (leb b'a' c && leb c b'z')
    || c == b'_'

-- `/^w\b/` for a word `w`
unfoldable pub starts_word : Text → Text → Bool
starts_word [] [] = true
starts_word (c ∷ s) [] = not (is_word c)
starts_word [] (d ∷ w) = false
starts_word (c ∷ s) (d ∷ w) = c == d && starts_word s w

-- `s.replace(/\bw\b/g, by)` for a word `w`, with the number of characters of `w` that are still to
-- be passed over and whether the last character was one of a word.
unfoldable pub replace_word : Text → Text → ℕ → Bool → Text → Text
replace_word w by n previous [] = []
replace_word w by (suc n) previous (c ∷ s) = replace_word w by n (is_word c) s
replace_word w by zero previous (c ∷ s) = elim (not previous && starts_word (c ∷ s) w) [
  | true ↦ by ++ replace_word w by (length w - 1) (is_word c) s
  | false ↦ c ∷ replace_word w by 0 (is_word c) s
]

-- The last line of `norm`.
unfoldable pub expand_saints : Text → Text
expand_saints s =
    replace_word (codes "ST") (codes "SAINT") 0 false
      (replace_word (codes "STE") (codes "SAINTE") 0 false s)

-- `s.replace(/\.$/, "")`
unfoldable pub strip_dot : Text → Text
strip_dot [] = []
strip_dot (c ∷ []) = if c == b'.' then [] else c ∷ []
strip_dot (c ∷ d ∷ s) = c ∷ strip_dot (d ∷ s)

module _ (unicode : Unicode) where
  -- `norm`, on a text that is empty where `s` is null or undefined.
  unfoldable pub norm : Text → Text
  norm s =
      let bare = keep (λ c. not (unicode.is_mark c)) (unicode.nfd s) in
      expand_saints (collapse (replace_separators (replace_ligatures (unicode.to_upper bare))))

  -- `tight`
  unfoldable pub tight : Text → Text
  tight s = keep (λ c. not (c == 32)) (norm s)

  -- `communeLabel`
  unfoldable pub commune_label : Text → Text → Text
  commune_label rne_name directory_name =
      let a = strip_controls (some directory_name) in
      if not (is_nil a) && text_eq (norm a) (norm rne_name) then a else rne_name

  -- `sexFromTitle`
  unfoldable pub sex_from_title : Text → Option Text
  sex_from_title civ =
      let c = strip_dot (norm civ) in
      if text_eq c (codes "MME")
      then some (codes "F")
      else if text_eq c (codes "M")
      then some (codes "M")
      else none
