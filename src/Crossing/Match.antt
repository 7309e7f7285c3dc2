-- ===== src/Crossing/Match.antt =====
-- outils/build.ts: matching the endorsers with the mayors in office.
use paraphe.Common.{
  Bool, true, false, not, ◌||◌, Option, none, some, List, [], ◌∷◌, ◌++◌, map, Text, codes, text_eq,
  keep, take, drop, ◌==◌, if◌then◌else◌, or_else, ◌>>=◌, lookup, insert, get_elem?, starts_with,
  includes,
}
use paraphe.Texte.Unicode.{Unicode}
use paraphe.Texte.Norm.{norm, tight}
use paraphe.Texte.Controls.{is_nil, trim_start}
use paraphe.Texte.Difflib.{Score, closest_match}
use paraphe.Crossing.Entities.{Official, Contact, Person}
use paraphe.Crossing.Identity.{Verdict, ok, different, is_ok, compare_identity}
use paraphe.Crossing.Sources.{Rne}

-- `departmentOfInsee`
unfoldable pub department_of_insee : Text → Text
department_of_insee insee =
    if starts_with insee (codes "97") || starts_with insee (codes "98")
    then take 3 insee
    else take 2 insee

-- `communesByLabel` and `deptCode` beside the sources.
pub record Places : Type 0 where
  pub rne : Rne
  pub contacts : List (Text × Contact)
  pub communes_by_label : List (Text × List Text)
  pub dept_code : List (Text × Text)

-- The text after the first hyphen of `s` and the white space behind it.
unfoldable pub after_hyphen : Text → Option Text
after_hyphen [] = none
after_hyphen (c ∷ s) = if c == b'-' then some (trim_start s) else after_hyphen s

-- `if (known) known.push(insee); else communesByLabel.set(key, [insee])`, if the key is not empty.
unfoldable pub add_label : Text → Text → List (Text × List Text) → List (Text × List Text)
add_label key insee labels =
    if is_nil key
    then labels
    else insert text_eq labels key (or_else (lookup text_eq labels key) [] ++ insee ∷ [])

-- The loop that fills `deptCode`.
unfoldable pub dept_codes :
    List (Text × List (Text × Official)) → List (Text × Text) → List (Text × Text)
dept_codes [] codes_of = codes_of
dept_codes ((d, []) ∷ by_commune) codes_of = dept_codes by_commune codes_of
dept_codes ((d, (k, first) ∷ communes) ∷ by_commune) codes_of =
    dept_codes by_commune (insert text_eq codes_of d (department_of_insee first.insee))

-- What becomes of a target: still a mayor with this row and confidence, no longer one of the
-- commune with this code, or to be checked by hand for this reason.
pub data Outcome : Type 0 where
  still_mayor : Official → Text → Outcome
  replaced : Text → Outcome
  to_check : Text → Outcome

-- The row of the signed commune, and whether it was found by likeness only.
pub record Found : Type 0 where
  pub row : Option Official
  pub approx : Bool

abbrev pub exact : Option Official → Found
exact row = record { row = row; approx = false }

abbrev pub cutoff : Score
cutoff = record { num = 93; den = 100 }

-- `signedInsee`
unfoldable pub signed_insee : Person → Places → Option Official → Option Text
signed_insee rec places (some row) = none
signed_insee rec places none =
    get_elem?
      (keep
        (λ insee. elim (lookup text_eq places.dept_code rec.dept_n) [
          | none ↦ false
          | some code ↦ text_eq (department_of_insee insee) code
        ])
        (or_else (lookup text_eq places.communes_by_label rec.commune_n) []))
      0

-- `signedInsee !== undefined && signedInsee !== hits[0].insee`
unfoldable pub is_elsewhere : Option Text → Official → Bool
is_elsewhere none hit = false
is_elsewhere (some insee) hit = not (text_eq insee hit.insee)

abbrev pub renamed : Option Official → Text
renamed none = codes "retrouvé par nom (commune renommée/fusionnée)"
renamed (some row) = codes "retrouvé par nom (même commune, identité rapprochée)"

unfoldable pub status_of : Bool → Option Official → Text
status_of other_commune none =
    codes "à vérifier : "
    ++ (if other_commune
        then codes "commune sans maire au RNE, homonyme dans une autre commune"
        else codes "commune introuvable")
status_of other_commune (some row) =
    codes "à vérifier : "
    ++ ((if other_commune
          then codes "commune sans maire au RNE, homonyme dans une autre commune"
          else codes "identité proche mais non certaine")
        ++ (codes " (RNE : "
            ++ (row.first_name
                ++ (32 ∷ row.last_name ++ (codes ", " ++ (row.commune ++ codes ")"))))))

-- The branch of a target that the row of its commune has not confirmed and not replaced.
unfoldable pub fall_back : Person → Places → Option Official → List Official → Outcome
fall_back rec places row (hit ∷ []) =
    if is_elsewhere (signed_insee rec places row) hit
    then to_check (status_of true row)
    else still_mayor hit (renamed row)
fall_back rec places row hits = to_check (status_of false row)

module _ (unicode : Unicode) where
  -- `c.cardName.replace(/^mairie[^-]*-\s*/i, "")`: in lower case, the letters of the pattern stand
  -- for themselves only.
  unfoldable pub label_of : Text → Text
  label_of card_name =
      if starts_with (unicode.to_lower (take 6 card_name)) (codes "mairie")
      then or_else (after_hyphen (drop 6 card_name)) card_name
      else card_name

  -- The loop that fills `communesByLabel`.
  unfoldable pub labels_of :
      List (Text × Contact) → List (Text × List Text) → List (Text × List Text)
  labels_of [] labels = labels
  labels_of ((insee, c) ∷ contacts) labels =
      let name = unicode.to_lower c.card_name in
      labels_of contacts (
        if includes name (codes "délégu") || includes name (codes "annexe")
        then labels
        else add_label (norm unicode c.city) insee
            (add_label (norm unicode (label_of c.card_name)) insee labels))

  unfoldable pub places_of : Rne → List (Text × Contact) → Places
  places_of rne contacts = record {
    rne = rne;
    contacts = contacts;
    communes_by_label = labels_of contacts [];
    dept_code = dept_codes rne.by_commune [];
  }

  -- The names of the communes that differ from the signed one by their separators only.
  unfoldable pub same_tight : Text → List (Text × Official) → List Text
  same_tight commune_n communes =
      keep (λ name. text_eq (tight unicode name) (tight unicode commune_n))
        (map (λ (k, o). k) communes)

  -- The row of a name that the exact test has not found, if the department has communes.
  unfoldable pub find_close : Text → List (Text × Official) → List Text → Option Found
  find_close commune_n communes (name ∷ []) = some (exact (lookup text_eq communes name))
  find_close commune_n communes names = do
    close ← closest_match commune_n (map (λ (k, o). k) communes) cutoff
    some (elim close [
      | none ↦ exact none
      | some name ↦ record { row = lookup text_eq communes name; approx = true }
    ])

  unfoldable pub find_row_in : Text → List (Text × Official) → Option Official → Option Found
  find_row_in commune_n communes (some row) = some (exact (some row))
  find_row_in commune_n [] none = some (exact none)
  find_row_in commune_n (c ∷ communes) none =
      find_close commune_n (c ∷ communes) (same_tight commune_n (c ∷ communes))

  -- `row` and `approx`; `none` is an error.
  unfoldable pub find_row : Person → Rne → Option Found
  find_row rec rne =
      let communes = or_else (lookup text_eq rne.by_commune rec.dept_n) [] in
      find_row_in rec.commune_n communes (lookup text_eq communes rec.commune_n)

  -- `row !== undefined ? compareIdentity(rec, row) : null`; the outer `none` is an error.
  unfoldable pub verdict_on : Person → Option Official → Option (Option Verdict)
  verdict_on rec none = some none
  verdict_on rec (some row) = do verdict ← compare_identity unicode rec row; some (some verdict)

  -- `people.filter((r) => compareIdentity(rec, r) === "ok")`; `none` is an error.
  unfoldable pub hits_among : Person → List Official → Option (List Official)
  hits_among rec [] = some []
  hits_among rec (r ∷ people) = do
    verdict ← compare_identity unicode rec r
    rest ← hits_among rec people
    some (if is_ok verdict then r ∷ rest else rest)

  -- A round of the loop from the verdict on; `none` is an error.
  unfoldable pub judge : Person → Places → Bool → Option Official → Option Verdict → Option Outcome
  judge rec places approx (some row) (some ok) =
      some (still_mayor row (if approx then codes "commune approchée" else codes "exact"))
  judge rec places false (some row) (some different) = some (replaced row.insee)
  judge rec places approx row verdict = do
    hits ← hits_among rec (or_else (lookup text_eq places.rne.by_person rec.dept_n) [])
    some (fall_back rec places row hits)

  unfoldable pub classify : Places → Person → Option Outcome
  classify places rec = do
    found ← find_row rec places.rne
    verdict ← verdict_on rec found.row
    judge rec places found.approx found.row verdict
