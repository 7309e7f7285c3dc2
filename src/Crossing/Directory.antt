-- ===== src/Crossing/Directory.antt =====
-- outils/sources.ts: the directory of the town halls.
pub mod Cards
use paraphe.Common.{
  ℕ, Bool, true, false, not, ◌&&◌, ◌||◌, Option, none, some, List, [], ◌∷◌, ◌++◌, map, Text, codes,
  text_eq, any, all, keep, take, length, leb, ltb, ◌==◌, if◌then◌else◌, or_else, ◌>>=◌, get_elem?,
  lookup, insert, includes,
}
use paraphe.Csv.{Row, field, join, parse_rows, parse_records}
use paraphe.Texte.Controls.{trim, is_nil}
use paraphe.Texte.Unicode.{Unicode}
use paraphe.Crossing.Entities.{Contact}
use paraphe.Crossing.Sources.{header_of}

-- What `JSON.parse` makes of a cell that holds objects with texts in them; `none` is an error.
abbrev pub Json : Type 0
Json = Text → Option (List Row)

-- `jsonOrDefault(raw, [])`, with the default given as the argument `fallback`.
unfoldable pub json_or_default : Json → Text → List Row → List Row
json_or_default json raw fallback = if is_nil raw then fallback else or_else (json raw) fallback

-- `r[name] ?? ""`
abbrev pub text_of : Row → Text → Text
text_of r name = or_else (field r name) []

-- `r[name].valeur ?? ""` of the first object.
abbrev pub first_value : List Row → Text
first_value [] = []
first_value (v ∷ values) = text_of v (codes "valeur")

-- The hours of one range for `i` = 1 or 2.
unfoldable pub hours_of : Row → Text → List Text
hours_of p i =
    let from = take 5 (text_of p (codes "valeur_heure_debut_" ++ i)) in
    let to = take 5 (text_of p (codes "valeur_heure_fin_" ++ i)) in
    if not (is_nil from) && not (is_nil to) then (from ++ (b'-' ∷ to)) ∷ [] else []

-- `days`
unfoldable pub days_of : Row → Text
days_of p =
    let d1 = text_of p (codes "nom_jour_debut") in
    let d2 = text_of p (codes "nom_jour_fin") in
    if is_nil d2 || text_eq d1 d2 then take 3 d1 else take 3 d1 ++ (b'-' ∷ take 3 d2)

-- The loop of `compactHours`.
unfoldable pub hours_parts : List Row → List Text
hours_parts [] = []
hours_parts (p ∷ ranges) =
    let hours = hours_of p (codes "1") ++ hours_of p (codes "2") in
    let rest = hours_parts ranges in
    if not (is_nil (days_of p)) && leb 1 (length hours)
    then (days_of p ++ (32 ∷ join hours (codes "/"))) ∷ rest
    else rest

unfoldable pub compact_hours : Json → Text → Text
compact_hours json raw = join (hours_parts (json_or_default json raw [])) (codes " ; ")

-- `DIRECTORY_COLUMNS`
abbrev pub directory_columns : List Text
directory_columns =
    codes "pivot"
    ∷ codes "code_insee_commune"
    ∷ codes "nom"
    ∷ codes "adresse_courriel"
    ∷ codes "telephone"
    ∷ codes "site_internet"
    ∷ codes "adresse"
    ∷ codes "formulaire_contact"
    ∷ codes "plage_ouverture"
    ∷ []

-- `beforeOrEqual`
unfoldable pub before_or_equal : ℕ × ℕ → ℕ × ℕ → Bool
before_or_equal (a0, a1) (b0, b1) = ltb a0 b0 || (a0 == b0 && leb a1 b1)

abbrev is_main : Row → Bool
is_main a = text_eq (text_of a (codes "type_adresse")) (codes "Adresse")

-- `addresses.find((a) => a.type_adresse === "Adresse") ?? addresses[0] ?? {}`
unfoldable pub address_of : List Row → Row
address_of addresses =
    or_else (get_elem? (keep is_main addresses) 0) (or_else (get_elem? addresses 0) [])

-- The card that a round of `loadDirectory` sets.
unfoldable pub contact_of : Json → Row → Contact
contact_of json r =
    let addr = address_of (json_or_default json (text_of r (codes "adresse")) []) in
    record {
      card_name = text_of r (codes "nom");
      email = trim (text_of r (codes "adresse_courriel"));
      phone = first_value (json_or_default json (text_of r (codes "telephone")) []);
      street = trim (
          join
            (keep (λ t. not (is_nil t))
              (text_of addr (codes "complement1") ∷ text_of addr (codes "numero_voie") ∷ []))
            (codes " "));
      zip = text_of addr (codes "code_postal");
      city = text_of addr (codes "nom_commune");
      website = first_value (json_or_default json (text_of r (codes "site_internet")) []);
      contact_form = trim (text_of r (codes "formulaire_contact"));
      hours = compact_hours json (text_of r (codes "plage_ouverture"));
    }

-- The pivots of a row of a town hall, which is no annexe.
unfoldable pub is_town_hall : List Row → Bool
is_town_hall pivots =
    any
      (λ p.
        let type = text_of p (codes "type_service_local") in
        text_eq type (codes "mairie") || text_eq type (codes "mairie_com"))
      pivots

-- The code under which a round of the loop files the row; `none` is one that it skips.
unfoldable pub code_of : Json → Row → Option Text
code_of json r =
    let raw = text_of r (codes "pivot") in
    let insee = trim (text_of r (codes "code_insee_commune")) in
    if is_nil raw then none else do
      pivots ← json raw
      if not (is_town_hall pivots) || is_nil insee then none else some insee

module _ (unicode : Unicode) where
  -- `rankCard`
  unfoldable pub rank_card : Text → ℕ × ℕ
  rank_card name =
      let n = unicode.to_lower name in
      (if includes n (codes "délégu") || includes n (codes "annexe") then 1 else 0, length name)

  -- `existing && beforeOrEqual(…)`
  unfoldable pub is_kept : Option Contact → Row → Bool
  is_kept none r = false
  is_kept (some existing) r =
      before_or_equal (rank_card existing.card_name) (rank_card (text_of r (codes "nom")))

module _ (unicode : Unicode) (json : Json) where
  -- A round of the loop of `loadDirectory`, for the code of the row.
  unfoldable pub file_card : Option Text → Row → List (Text × Contact) → List (Text × Contact)
  file_card none r contacts = contacts
  file_card (some insee) r contacts =
      if is_kept unicode (lookup text_eq contacts insee) r
      then contacts
      else insert text_eq contacts insee (contact_of json r)

  unfoldable pub file_cards : List Row → List (Text × Contact) → List (Text × Contact)
  file_cards [] contacts = contacts
  file_cards (r ∷ rows) contacts = file_cards rows (file_card (code_of json r) r contacts)

  -- `loadDirectory` up to its yield floor; `none` is an error.
  unfoldable pub read_directory : Text → Option (List (Text × Contact))
  read_directory raw =
      let header = header_of (parse_rows raw b';') in
      if not (all (λ c. any (text_eq c) header) directory_columns)
      then none
      else some (file_cards (parse_records raw b';') [])

  unfoldable pub load_directory : Text → Option (List (Text × Contact))
  load_directory raw = do
    contacts ← read_directory raw
    if ltb (length contacts) 30000 then none else some contacts
