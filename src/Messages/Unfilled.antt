-- ===== src/Messages/Unfilled.antt =====
-- noyau/messages.ts: the keys of a campaign that still hold what the template says.
use paraphe.Common.{
  ℕ, Bool, false, not, ◌&&◌, ◌||◌, Option, List, [], ◌∷◌, Text, codes, text_eq, any, keep, leb,
  ◌==◌, if◌then◌else◌, or_else, has_char,
}
use paraphe.Csv.{Row, field}
use paraphe.Texte.Unicode.{Unicode}
use paraphe.Texte.Controls.{trim, is_nil}

-- `CAMPAIGN_KEYS`
abbrev pub campaign_keys : List Text
campaign_keys =
    codes "candidat"
    ∷ codes "candidat_description"
    ∷ codes "candidat_description_longue"
    ∷ codes "signataire"
    ∷ codes "signataire_qualite"
    ∷ codes "contact_tel"
    ∷ codes "contact_email"
    ∷ codes "site"
    ∷ codes "ville_envoi"
    ∷ []

-- `OPTIONAL_CAMPAIGN_KEYS`
abbrev pub optional_keys : List Text
optional_keys =
    codes "contact_email" ∷ codes "contact_tel" ∷ codes "site" ∷ codes "ville_envoi" ∷ []

-- `PERSONAL_CAMPAIGN_KEYS`
abbrev pub personal_keys : List Text
personal_keys = codes "signataire" ∷ codes "signataire_qualite" ∷ []

-- `TEMPLATE_VALUES`
abbrev pub template_values : List Text
template_values =
    codes "prénom nom"
    ∷ codes "ville"
    ∷ codes "06 00 00 00 00"
    ∷ codes "contact@exemple.fr"
    ∷ codes "https://exemple.fr"
    ∷ []

-- `TEMPLATE_FILES`
abbrev pub template_files : List Text
template_files =
    codes "email.txt"
    ∷ codes "email_decouverte.txt"
    ∷ codes "courrier.txt"
    ∷ codes "courrier_decouverte.txt"
    ∷ codes "telephone.txt"
    ∷ codes "telephone_decouverte.txt"
    ∷ []

-- `MAX_TEMPLATE_RUNES`
abbrev pub max_template_runes : ℕ
max_template_runes = 5000

-- `[\u200b-\u200d\ufeff]`
unfoldable pub is_invisible : ℕ → Bool
is_invisible c = (leb 0x200b c && leb c 0x200d) || c == 0xfeff

-- The class of white space that is written out in `unfilledKeys`.
unfoldable pub is_blank : ℕ → Bool
is_blank c =
    (leb 9 c && leb c 13)
    || c == 32
    || c == 0x85
    || c == 0xa0
    || c == 0x1680
    || (leb 0x2000 c && leb c 0x200a)
    || c == 0x2028
    || c == 0x2029
    || c == 0x202f
    || c == 0x205f
    || c == 0x3000

-- Runs of that class, each replaced by a space; `previous` tells that a run is under way.
unfoldable pub fold_blanks : Bool → Text → Text
fold_blanks previous [] = []
fold_blanks previous (c ∷ s) =
    let rest = fold_blanks (is_blank c) s in
    if is_blank c then (if previous then rest else 32 ∷ rest) else c ∷ rest

abbrev starts_apart : ℕ → Text → Bool
starts_apart close [] = false
starts_apart close (c ∷ s) = not (c == close)

-- `/\[[^\]]+\]/.test(s)` for the two brackets: something that is not the closing one stands between.
unfoldable pub has_pair : ℕ → ℕ → Text → Bool
has_pair opening close [] = false
has_pair opening close (c ∷ s) =
    (c == opening && starts_apart close s && has_char close s) || has_pair opening close s

module _ (unicode : Unicode) where
  -- `v`
  unfoldable pub shown_value : Option Text → Text
  shown_value value =
      trim (fold_blanks false (keep (λ c. not (is_invisible c)) (unicode.nfc (or_else value []))))

  -- The test of the filter.
  unfoldable pub is_unfilled : Row → Text → Bool
  is_unfilled cfg k =
      let v = shown_value (field cfg k) in
      if is_nil v
      then not (any (text_eq k) optional_keys)
      else any (text_eq (unicode.to_lower v)) template_values
        || has_pair b'[' b']' v
        || has_pair b'{' b'}' v
        || has_pair b'<' b'>' v

  -- `unfilledKeys`
  unfoldable pub unfilled_keys : Row → List Text
  unfilled_keys cfg = keep (is_unfilled cfg) campaign_keys
