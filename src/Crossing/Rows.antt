-- ===== src/Crossing/Rows.antt =====
-- outils/build.ts: the rows of the four files.
pub mod Ranks
use paraphe.Common.{
  ℕ, ◌+◌, Bool, true, false, not, ◌&&◌, ◌||◌, Option, none, some, List, [], ◌∷◌, ◌++◌, map, Text,
  codes, text_eq, any, all, keep, drop, length, leb, ltb, ◌==◌, if◌then◌else◌, or_else, lookup,
  insert, sort_by, includes, decimal,
}
use paraphe.Csv.{Row, join, field}
use paraphe.Texte.Unicode.{Unicode}
use paraphe.Texte.Norm.{commune_label}
use paraphe.Texte.Controls.{strip_controls, is_nil}
use paraphe.Texte.Difflib.{text_gt}
use paraphe.Messages.Words.{prose_name, cut_at, text_lt, sort_texts}
use paraphe.Crossing.Entities.{Official, Contact, Person, Target}

-- `DEMOCRATIC_THEME`
abbrev pub themes : List Text
themes =
    codes "MARCHANDISE Charlotte"
    ∷ codes "JARDIN Alexandre"
    ∷ codes "NIKONOFF Jacques"
    ∷ codes "FAUDOT Bastien"
    ∷ codes "EGGER Clara"
    ∷ codes "KOENIG Gaspard"
    ∷ codes "TROADEC Christian"
    ∷ []

-- The loop of `maxBy`.
unfoldable pub max_from : (Text → Text) → Text → List Text → Text
max_from key best [] = best
max_from key best (x ∷ xs) = max_from key (if text_gt (key x) (key best) then x else best) xs

-- `maxBy` on a list that is not empty.
unfoldable pub max_by : (Text → Text) → List Text → Text
max_by key [] = []
max_by key (x ∷ xs) = max_from key x xs

-- `tag.split(":")[0]`
unfoldable pub tag_year : Text → Text
tag_year [] = []
tag_year (c ∷ tag) = if c == b':' then [] else c ∷ tag_year tag

-- `s.replace(/ \([AB]\)$/, "")`
unfoldable pub strip_tier : Text → Text
strip_tier [] = []
strip_tier (c ∷ s) =
    let rest = strip_tier s in
    if text_eq (c ∷ s) (codes " (A)") || text_eq (c ∷ s) (codes " (B)") then [] else c ∷ rest

-- `tagCandidate`: without the mark, `indexOf` gives -1 and the slice starts at 1.
unfoldable pub tag_candidate : Text → Text
tag_candidate tag =
    strip_tier (elim (cut_at tag (codes ": ")) [ none ↦ drop 1 tag | some (before, after) ↦ after ])

unfoldable pub priority : Person → Text
priority rec = if any (λ t. includes t (codes "(A)")) rec.small then codes "P1" else codes "P2"

unfoldable pub democratic_theme : Person → Text
democratic_theme rec =
    if any (λ t. any (λ c. includes t c) themes) (rec.small ++ rec.others) then codes "oui" else []

abbrev bar : Text
bar = codes " | "

-- `common`
unfoldable pub common_row : Person → Row
common_row rec =
    (codes "priority", priority rec)
    ∷ (codes "score", decimal rec.score)
    ∷ (codes "democratic_theme_endorsement", democratic_theme rec)
    ∷ (codes "title", rec.civ)
    ∷ (codes "first_name", rec.first_name)
    ∷ (codes "last_name", rec.last_name)
    ∷ (codes "commune", rec.commune)
    ∷ (codes "department", rec.dept)
    ∷ (codes "small_candidate_endorsements", join (sort_texts rec.small) bar)
    ∷ (codes "other_endorsements", join (sort_texts rec.others) bar)
    ∷ []

-- `c?.x ?? ""`
abbrev pub of_contact : Option Contact → (Contact → Text) → Text
of_contact none get = []
of_contact (some c) get = get c

-- The columns that file 01 and file 04 take from the card.
unfoldable pub contact_row : Option Contact → Row
contact_row c =
    (codes "email", of_contact c (λ x. x.email))
    ∷ (codes "phone", of_contact c (λ x. x.phone))
    ∷ (codes "town_hall_hours", of_contact c (λ x. x.hours))
    ∷ (codes "postal_address", strip_controls (some (of_contact c (λ x. x.street))))
    ∷ (codes "postal_code", of_contact c (λ x. x.zip))
    ∷ (codes "city", strip_controls (some (of_contact c (λ x. x.city))))
    ∷ (codes "website", of_contact c (λ x. x.website))
    ∷ (codes "contact_form", of_contact c (λ x. x.contact_form))
    ∷ []

-- `communesThatEndorsed` after a round of its loop.
unfoldable pub add_commune :
    List (Text × Target) → Person → List (Text × Person) → List (Text × Person)
add_commune by_insee r held = elim r.commune_insee [
  | none ↦ held
  | some i ↦ if is_nil i then held else elim (lookup text_eq by_insee i) [
    | some target ↦ held
    | none ↦ elim (lookup text_eq held i) [
      | none ↦ insert text_eq held i r
      | some old ↦ if ltb old.score r.score then insert text_eq held i r else held
    ]
  ]
]

unfoldable pub add_communes :
    List (Text × Target) → List Person → List (Text × Person) → List (Text × Person)
add_communes by_insee [] held = held
add_communes by_insee (r ∷ former) held = add_communes by_insee former (add_commune by_insee r held)

-- `new Map(kept.map((r) => [r.rne.insee, r]))`
unfoldable pub targets_by_insee : List Target → List (Text × Target) → List (Text × Target)
targets_by_insee [] m = m
targets_by_insee (r ∷ kept) m = targets_by_insee kept (insert text_eq m r.rne.insee r)

-- The part of a row of file 04 that depends on the rank.
pub record Signal : Type 0 where
  pub rank_key : Text
  pub hist : Text
  pub predecessor : Text
  pub predecessor_mayor : Text

-- `past.office === "Maire" && past.years.has(2022) && !past.years.has(2017)`
unfoldable pub was_mayor : Person → Bool
was_mayor past =
    text_eq past.office (codes "Maire")
    && any (λ y. y == 2022) past.years
    && not (any (λ y. y == 2017) past.years)

unfoldable pub signal_of : Option Target → Option Person → Signal
signal_of (some target) past = record {
  rank_key = codes "has_endorsed";
  hist = join (sort_texts target.person.small) bar;
  predecessor = [];
  predecessor_mayor = [];
}
signal_of none (some past) = record {
  rank_key = codes "commune_has_endorsed";
  hist = join (sort_texts past.small) bar;
  predecessor = past.first_name ++ (32 ∷ past.last_name);
  predecessor_mayor = if was_mayor past then codes "oui" else [];
}
signal_of none none = record {
  rank_key = codes "no_signal";
  hist = [];
  predecessor = [];
  predecessor_mayor = [];
}

-- `RANKS[key]`
unfoldable pub rank_label : Text → Text
rank_label key =
    if text_eq key (codes "has_endorsed")
    then codes "A déjà parrainé un candidat peu médiatisé"
    else if text_eq key (codes "commune_has_endorsed")
    then codes "Sa commune l'a déjà fait (maire différent depuis)"
    else codes "Aucun signal connu"

abbrev of_target : Option Target → (Target → Text) → Text → Text
of_target none get default = default
of_target (some t) get default = get t

module _ (unicode : Unicode) where
  -- The row of a mayor in file 01.
  unfoldable pub target_row : Target → Row
  target_row r =
      let rne = r.rne in
      let civ =
        if text_eq rne.sex (codes "F")
        then codes "Mme"
        else if text_eq rne.sex (codes "M")
        then codes "M."
        else r.person.civ in
      let commune =
        commune_label unicode
          (commune_label unicode rne.commune (of_contact r.contact (λ c. c.city)))
          r.person.commune in
      let recent = max_by tag_year r.person.small in
      common_row (record r.person {
        last_name = rne.last_name;
        first_name = rne.first_name;
        dept = rne.dept;
        civ = civ;
        commune = commune;
      })
      ++ ((codes "insee_code", rne.insee) ∷ contact_row r.contact
          ++ ((codes "recent_candidate", prose_name unicode (tag_candidate recent))
              ∷ (codes "recent_year", tag_year recent)
              ∷ (codes "commune_2026", rne.commune)
              ∷ (codes "matching_confidence", r.conf)
              ∷ []))

  -- The row of an official in file 04.
  unfoldable pub base_row :
      List (Text × Contact) → List (Text × Target) → List (Text × Person) → Official → Row
  base_row contacts by_insee past row =
      let c = lookup text_eq contacts row.insee in
      let target = lookup text_eq by_insee row.insee in
      let s = signal_of target (lookup text_eq past row.insee) in
      (codes "rank", s.rank_key)
      ∷ (codes "rank_label", rank_label s.rank_key)
      ∷ (codes "score", of_target target (λ t. decimal t.person.score) (decimal 0))
      ∷ (codes "priority", of_target target (λ t. priority t.person) [])
      ∷ (codes "democratic_theme_endorsement", of_target target (λ t. democratic_theme t.person) [])
      ∷ (codes "title", if text_eq row.sex (codes "F") then codes "Mme" else codes "M.")
      ∷ (codes "first_name", row.first_name)
      ∷ (codes "last_name", row.last_name)
      ∷ (codes "commune", commune_label unicode row.commune (of_contact c (λ x. x.city)))
      ∷ (codes "department", row.dept)
      ∷ (codes "insee_code", row.insee)
      ∷ (codes "endorsement_history", s.hist)
      ∷ (codes "predecessor", s.predecessor)
      ∷ (codes "predecessor_mayor", s.predecessor_mayor)
      ∷ (
        codes "recent_candidate",
        of_target target (λ t. prose_name unicode (tag_candidate (max_by tag_year t.person.small)))
            [],
      )
      ∷ (codes "recent_year", of_target target (λ t. tag_year (max_by tag_year t.person.small)) [])
      ∷ contact_row c

-- The order of file 02 and file 03.
unfoldable pub person_before : Person → Person → Bool
person_before x y = ltb y.score x.score || (x.score == y.score && text_lt x.dept y.dept)

-- The rows of file 02 or file 03.
unfoldable pub former_rows : List Person → List Row
former_rows rows =
    map (λ r. common_row r ++ (codes "status", or_else r.status []) ∷ [])
      (sort_by person_before rows)
