-- ===== src/Crossing/Files.antt =====
-- outils/build.ts: the files that are written.
pub mod Shape
use paraphe.Common.{
  ℕ, zero, suc, ◌+◌, ◌*◌, ◌-◌, Bool, true, false, not, ◌&&◌, ◌||◌, Option, none, some, List, [],
  ◌∷◌, ◌++◌, map, Text, codes, text_eq, any, keep, ltb, ◌==◌, or_else, if◌then◌else◌, sort_by,
}
use paraphe.Csv.{Row, field, write_csv}
use paraphe.Texte.Unicode.{Unicode}
use paraphe.Messages.Words.{text_lt}
use paraphe.Crossing.Entities.{Official, Contact, Person, Target}
use paraphe.Crossing.Rows.{target_row, former_rows, base_row, targets_by_insee, add_communes}

-- `cols1`
abbrev pub target_columns : List Text
target_columns =
    codes "priority"
    ∷ codes "score"
    ∷ codes "democratic_theme_endorsement"
    ∷ codes "title"
    ∷ codes "first_name"
    ∷ codes "last_name"
    ∷ codes "commune"
    ∷ codes "department"
    ∷ codes "insee_code"
    ∷ codes "small_candidate_endorsements"
    ∷ codes "other_endorsements"
    ∷ codes "recent_candidate"
    ∷ codes "recent_year"
    ∷ codes "email"
    ∷ codes "phone"
    ∷ codes "town_hall_hours"
    ∷ codes "postal_address"
    ∷ codes "postal_code"
    ∷ codes "city"
    ∷ codes "website"
    ∷ codes "contact_form"
    ∷ codes "commune_2026"
    ∷ codes "matching_confidence"
    ∷ []

-- `notInScope`
abbrev pub not_in_scope : List Text
not_in_scope =
    codes "insee_code"
    ∷ codes "email"
    ∷ codes "phone"
    ∷ codes "town_hall_hours"
    ∷ codes "postal_address"
    ∷ codes "postal_code"
    ∷ codes "city"
    ∷ codes "website"
    ∷ codes "contact_form"
    ∷ codes "commune_2026"
    ∷ codes "matching_confidence"
    ∷ codes "recent_candidate"
    ∷ codes "recent_year"
    ∷ []

-- `cols2`
unfoldable pub former_columns : List Text
former_columns =
    keep (λ c. not (any (text_eq c) not_in_scope)) target_columns ++ codes "status" ∷ []

-- `cols4`
abbrev pub base_columns : List Text
base_columns =
    codes "rank"
    ∷ codes "rank_label"
    ∷ codes "score"
    ∷ codes "priority"
    ∷ codes "democratic_theme_endorsement"
    ∷ codes "title"
    ∷ codes "first_name"
    ∷ codes "last_name"
    ∷ codes "commune"
    ∷ codes "department"
    ∷ codes "insee_code"
    ∷ codes "endorsement_history"
    ∷ codes "predecessor"
    ∷ codes "predecessor_mayor"
    ∷ codes "recent_candidate"
    ∷ codes "recent_year"
    ∷ codes "email"
    ∷ codes "phone"
    ∷ codes "town_hall_hours"
    ∷ codes "postal_address"
    ∷ codes "postal_code"
    ∷ codes "city"
    ∷ codes "website"
    ∷ codes "contact_form"
    ∷ []

-- `rankOrder.indexOf(rank)`, plus one.
unfoldable pub rank_index : Text → ℕ
rank_index rank =
    if text_eq rank (codes "has_endorsed")
    then 1
    else if text_eq rank (codes "commune_has_endorsed")
    then 2
    else if text_eq rank (codes "no_signal")
    then 3
    else 0

-- `Number(s)` for the digits of a number, with what stands before them.
unfoldable pub number_from : ℕ → Text → ℕ
number_from n [] = n
number_from n (c ∷ s) = number_from (n * 10 + (c - 48)) s

abbrev at : Row → Text → Text
at r key = or_else (field r key) []

-- The comparator of `baseRows`: `a` comes before `b`.
unfoldable pub base_before : Row → Row → Bool
base_before a b =
    let rank_a = rank_index (at a (codes "rank")) in
    let rank_b = rank_index (at b (codes "rank")) in
    let score_a = number_from 0 (at a (codes "score")) in
    let score_b = number_from 0 (at b (codes "score")) in
    let dept_a = at a (codes "department") in
    let dept_b = at b (codes "department") in
    ltb rank_a rank_b
    || (rank_a == rank_b
        && (ltb score_b score_a
            || (score_a == score_b
                && (text_lt dept_a dept_b
                    || (text_eq dept_a dept_b
                        && text_lt (at a (codes "commune")) (at b (codes "commune")))))))

-- The text of file 02 and of file 03.
unfoldable pub former_file : List Person → Text
former_file rows = write_csv former_columns (former_rows rows) b';'

module _ (unicode : Unicode) where
  -- The text of file 01.
  unfoldable pub target_file : List Target → Text
  target_file kept = write_csv target_columns (map (target_row unicode) kept) b';'

  module _ (contacts : List (Text × Contact)) (kept : List Target) (former : List Person) where
    -- The loops that fill `baseRows`.
    unfoldable pub base_rows : List (Text × List Official) → List Row
    base_rows [] = []
    base_rows ((d, people) ∷ by_person) =
        map
          (base_row unicode contacts (targets_by_insee kept [])
            (add_communes (targets_by_insee kept []) former []))
          people
        ++ base_rows by_person

    -- The text of file 04.
    unfoldable pub base_file : List (Text × List Official) → Text
    base_file by_person = write_csv base_columns (sort_by base_before (base_rows by_person)) b';'
