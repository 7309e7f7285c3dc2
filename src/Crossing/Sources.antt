-- ===== src/Crossing/Sources.antt =====
-- outils/sources.ts: reading the endorsements and the register of the mayors in office. A file is
-- the text that `readStrict` has decoded; a cell that a row is too short for is the empty text.
pub mod Register
use paraphe.Common.{
  ℕ, Bool, true, false, not, ◌&&◌, ◌||◌, Option, none, some, List, [], ◌∷◌, ◌++◌, Text, codes,
  text_eq, any, all, keep, drop, length, leb, ltb, if◌then◌else◌, or_else, ◌>>=◌, get_elem?, lookup,
  insert,
}
use paraphe.Csv.{parse_rows}
use paraphe.Texte.Controls.{trim, is_nil}
use paraphe.Texte.Unicode.{Unicode}
use paraphe.Texte.Norm.{norm, collapse, sex_from_title}
use paraphe.Crossing.Entities.{Endorsement, Official}

abbrev pub cell : List Text → ℕ → Text
cell r i = or_else (get_elem? r i) []

abbrev pub header_of : List (List Text) → List Text
header_of [] = []
header_of (r ∷ rows) = r

-- `RNE_COLUMNS`
abbrev pub rne_columns : List (ℕ × List Text)
rne_columns =
    (1, codes "Libellé du département" ∷ [])
    ∷ (3, codes "Libellé de la collectivité à statut particulier" ∷ [])
    ∷ (4, codes "Code de la commune" ∷ [])
    ∷ (5, codes "Libellé de la commune" ∷ [])
    ∷ (6, codes "Nom de l'élu" ∷ [])
    ∷ (7, codes "Prénom de l'élu" ∷ [])
    ∷ (8, codes "Code sexe" ∷ [])
    ∷ []

-- `ENDORSEMENT_COLUMNS`
abbrev pub endorsement_columns : List (ℕ × List Text)
endorsement_columns =
    (0, codes "Civilité" ∷ [])
    ∷ (1, codes "Nom" ∷ [])
    ∷ (2, codes "Prénom" ∷ [])
    ∷ (3, codes "Mandat" ∷ [])
    ∷ (4, codes "Circonscription" ∷ [])
    ∷ (5, codes "Département" ∷ [])
    ∷ (6, codes "Candidat" ∷ codes "Candidat-e parrainé-e" ∷ [])
    ∷ []

-- The object that a round of `loadEndorsements` pushes.
unfoldable pub endorsement_of : ℕ → List Text → Endorsement
endorsement_of year r = record {
  year = year;
  civ = trim (cell r 0);
  last_name = collapse (cell r 1);
  first_name = collapse (cell r 2);
  office = collapse (cell r 3);
  commune = collapse (cell r 4);
  dept = collapse (cell r 5);
  candidate = collapse (cell r 6);
}

-- The inner loop of `loadEndorsements`.
unfoldable pub endorsements_of : ℕ → List (List Text) → List Endorsement
unfolding endorsement_of
endorsements_of year [] = []
endorsements_of year (r ∷ rows) =
    let rest = endorsements_of year rows in
    if ltb (length r) 8 then rest else endorsement_of year r ∷ rest

-- `byCommune` and `byPerson`.
pub record Rne : Type 0 where
  pub by_commune : List (Text × List (Text × Official))
  pub by_person : List (Text × List Official)

module _ (unicode : Unicode) where
  -- One test of `checkHeader`.
  unfoldable pub has_column : List Text → ℕ × List Text → Bool
  has_column header (i, names) =
      any (λ n. text_eq (norm unicode (cell header i)) (norm unicode n)) names

  -- `checkHeader` does not throw.
  unfoldable pub check_header : List Text → List (ℕ × List Text) → Bool
  check_header header expected = all (has_column header) expected

  abbrev is_known : Option Text → Bool
  is_known none = false
  is_known (some sex) = true

  -- `checkCivilities` does not throw.
  unfoldable pub check_civilities : List Endorsement → Bool
  check_civilities rows = all (λ p. is_known (sex_from_title unicode p.civ)) rows

  -- The outer loop of `loadEndorsements`, over the years and their files.
  unfoldable pub read_years : List (ℕ × Text) → Option (List Endorsement)
  read_years [] = some []
  read_years ((year, file) ∷ files) =
      let lines = parse_rows file b';' in
      if not (check_header (header_of lines) endorsement_columns)
      then none
      else do rest ← read_years files; some (endorsements_of year (drop 1 lines) ++ rest)

  -- `loadEndorsements` up to its yield floor; `none` is an error.
  unfoldable pub read_endorsements : List (ℕ × Text) → Option (List Endorsement)
  read_endorsements files = do
    rows ← read_years files
    if not (check_civilities rows) then none else some rows

  unfoldable pub load_endorsements : List (ℕ × Text) → Option (List Endorsement)
  load_endorsements files = do
    rows ← read_endorsements files
    if ltb (length rows) 20000 then none else some rows

  -- The object that a round of `loadRne` makes.
  unfoldable pub official_of : List Text → Official
  official_of r =
      let dept = collapse (cell r 1) in
      record {
        dept = if is_nil dept then collapse (cell r 3) else dept;
        insee = cell r 4;
        commune = cell r 5;
        last_name = collapse (cell r 6);
        first_name = collapse (cell r 7);
        sex = unicode.to_upper (collapse (cell r 8));
      }

  -- The rest of the round.
  unfoldable pub enter : Official → Rne → Rne
  enter official rne =
      let d = norm unicode official.dept in
      let communes = or_else (lookup text_eq rne.by_commune d) [] in
      let people = or_else (lookup text_eq rne.by_person d) [] in
      record {
        by_commune =
            insert text_eq rne.by_commune d
              (insert text_eq communes (norm unicode official.commune) official);
        by_person = insert text_eq rne.by_person d (people ++ official ∷ []);
      }

  unfoldable pub enter_all : List (List Text) → Rne → Rne
  enter_all [] rne = rne
  enter_all (r ∷ rows) rne = enter_all rows (enter (official_of r) rne)

  -- `loadRne` up to its yield floor; `none` is an error.
  unfoldable pub read_rne : Text → Option Rne
  read_rne file =
      let lines = parse_rows file b';' in
      if not (check_header (header_of lines) rne_columns)
      then none
      else some (enter_all (drop 1 lines) (record { by_commune = []; by_person = [] }))

  unfoldable pub load_rne : Text → Option Rne
  load_rne file = do rne ← read_rne file; if ltb (length rne.by_person) 90 then none else some rne
