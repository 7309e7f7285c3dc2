-- ===== src/Crossing/Persons.antt =====
-- outils/build.ts: the endorsements of the mayors, brought together by person.
pub mod Keys
pub mod Scores
use paraphe.Common.{
  ℕ, ◌+◌, Bool, true, false, not, ◌&&◌, ◌||◌, Option, none, some, List, [], ◌∷◌, ◌++◌, map, Text,
  codes, text_eq, any, all, keep, length, leb, ◌==◌, if◌then◌else◌, or_else, ◌>>=◌, lookup, insert,
  starts_with, decimal,
}
use paraphe.Texte.Unicode.{Unicode}
use paraphe.Texte.Norm.{norm}
use paraphe.Crossing.Entities.{Endorsement, Person}
use paraphe.Crossing.Identity.{Key, same_key, key_among}
use paraphe.Crossing.Dedupe.{add_years}

abbrev tier_a_2022 : List Text
tier_a_2022 =
    codes "ASSELINEAU François"
    ∷ codes "KAZIB Anasse"
    ∷ codes "THOUY Hélène"
    ∷ codes "KOENIG Gaspard"
    ∷ codes "KUZMANOVIC Georges"
    ∷ codes "MIGUET Nicolas"
    ∷ codes "EGGER Clara"
    ∷ codes "CHICHE Arnaud"
    ∷ codes "MARTINEZ Antoine"
    ∷ codes "FORTANÉ Jean-Marc"
    ∷ codes "SMATI Rafik"
    ∷ codes "ROCCA Martin"
    ∷ codes "CAU Marie"
    ∷ codes "WAECHTER Antoine"
    ∷ codes "MEURICE Guillaume"
    ∷ codes "BÉKAERT Corinne"
    ∷ []

abbrev tier_a_2017 : List Text
tier_a_2017 =
    codes "JARDIN Alexandre"
    ∷ codes "MARCHANDISE Charlotte"
    ∷ codes "TEMARU Oscar"
    ∷ codes "TAUZIN Didier"
    ∷ codes "GORGES Jean-Pierre"
    ∷ codes "TROADEC Christian"
    ∷ codes "LARROUTUROU Pierre"
    ∷ codes "FAUDOT Bastien"
    ∷ codes "MIGUET Nicolas"
    ∷ codes "MUMBACH Paul"
    ∷ codes "WAECHTER Antoine"
    ∷ codes "TONIUTTI Emmanuel"
    ∷ codes "GUYOT Stéphane"
    ∷ codes "REGIS Olivier"
    ∷ codes "NIKONOFF Jacques"
    ∷ []

-- `TIER_A`, which has no other year.
unfoldable pub tier_a : ℕ → List Text
tier_a year = if year == 2022 then tier_a_2022 else if year == 2017 then tier_a_2017 else []

abbrev tier_b_2022 : List Text
tier_b_2022 =
    codes "POUTOU Philippe"
    ∷ codes "ARTHAUD Nathalie"
    ∷ codes "LASSALLE Jean"
    ∷ codes "TAUBIRA Christiane"
    ∷ []

abbrev tier_b_2017 : List Text
tier_b_2017 =
    codes "ARTHAUD Nathalie"
    ∷ codes "POUTOU Philippe"
    ∷ codes "CHEMINADE Jacques"
    ∷ codes "ASSELINEAU François"
    ∷ codes "LASSALLE Jean"
    ∷ []

-- `TIER_B`
unfoldable pub tier_b : ℕ → List Text
tier_b year = if year == 2022 then tier_b_2022 else if year == 2017 then tier_b_2017 else []

-- A candidate of the configuration whom somebody has presented in the year.
unfoldable pub is_presented : List Endorsement → ℕ → Text → Bool
is_presented endorsements year c = any (λ p. p.year == year && text_eq p.candidate c) endorsements

-- The test that the keys of the configuration exist in the data.
unfoldable pub check_tiers : List Endorsement → Bool
check_tiers endorsements =
    all (λ y. all (is_presented endorsements y) (tier_a y ++ tier_b y)) (2017 ∷ 2022 ∷ [])

-- `tag`
unfoldable pub tag_of : Endorsement → Text
tag_of p = decimal p.year ++ (codes ": " ++ p.candidate)

-- The end of a round of the aggregation.
unfoldable pub sign : Endorsement → Person → Person
sign p rec =
    if any (text_eq p.candidate) (tier_a p.year)
    then record rec {
      small = rec.small ++ (tag_of p ++ codes " (A)") ∷ [];
      score = rec.score + 2;
      years = add_years rec.years (p.year ∷ []);
    }
    else if any (text_eq p.candidate) (tier_b p.year)
    then record rec {
      small = rec.small ++ (tag_of p ++ codes " (B)") ∷ [];
      score = rec.score + 1;
      years = add_years rec.years (p.year ∷ []);
    }
    else record rec { others = rec.others ++ tag_of p ∷ [] }

-- The bonus for two years.
unfoldable pub with_bonus : Person → Person
with_bonus v = if leb 2 (length v.years) then record v { score = v.score + 1 } else v

abbrev pub has_small : Person → Bool
has_small v = leb 1 (length v.small)

-- `targets`, with their bonus.
unfoldable pub targets_of : List (Key × Person) → List Person
targets_of persons = map with_bonus (keep has_small (map (λ (k, v). v) persons))

module _ (unicode : Unicode) where
  -- The record of a person who is not known yet.
  unfoldable pub new_person : Endorsement → Person
  new_person p = record {
    civ = p.civ;
    last_name = p.last_name;
    first_name = p.first_name;
    commune = p.commune;
    dept = p.dept;
    office = p.office;
    small = [];
    others = [];
    years = [];
    score = 0;
    status = none;
    commune_insee = none;
    dept_n = norm unicode p.dept;
    commune_n = norm unicode p.commune;
  }

  -- A round of the aggregation past its guard; `none` is an error of `ratio`.
  unfoldable pub file_mayor : Endorsement → List (Key × Person) → Option (List (Key × Person))
  file_mayor p persons = do
    key ← key_among unicode p persons
    some (
        insert same_key persons key (sign p (or_else (lookup same_key persons key) (new_person p))))

  unfoldable pub file_endorsement : Endorsement → List (Key × Person) → Option (List (Key × Person))
  file_endorsement p persons =
      if not (starts_with p.office (codes "Maire")) then some persons else file_mayor p persons

  unfoldable pub file_endorsements :
      List Endorsement → List (Key × Person) → Option (List (Key × Person))
  file_endorsements [] persons = some persons
  file_endorsements (p ∷ ps) persons = do
    persons' ← file_endorsement p persons
    file_endorsements ps persons'
