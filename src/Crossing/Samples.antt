-- ===== src/Crossing/Samples.antt =====
-- Tests of the reading of the sources and of the rows of the files, and their theorems at concrete
-- inputs.
use paraphe.Common.{
  false, none, some, List, [], ◌∷◌, ◌++◌, Text, codes, text_eq, any, drop, lookup, insert,
  if◌then◌else◌, ◌≡◌, refl, starts_with,
}
use paraphe.Csv.{
  Row, field, parse_rows, parse_records, records_of, fill, assign, scan, step, close_row,
}
use paraphe.Texte.Ascii.{ascii}
use paraphe.Texte.Norm.{
  norm, expand_saints, replace_word, starts_word, is_word, collapse, single_spaces,
  replace_separators, is_separator, replace_ligatures,
}
use paraphe.Texte.Controls.{is_space, starts_space, trim, trim_start, trim_end}
use paraphe.Messages.Words.{cut_at}
use paraphe.Messages.Fields.{Options}
use paraphe.Messages.Engine.{done, letter, phone_script, email, Email}
use paraphe.Messages.Render.Printed.{printed}
use paraphe.Messages.Engine.Subject.{printed_mail}
use paraphe.Messages.Engine.Discovery.{IsDiscovery}
use paraphe.Crossing.Entities.{Official, Contact, Person, Target}
use paraphe.Crossing.Dedupe.Codes.{has_code}
use paraphe.Crossing.Sources.{
  Rne, check_header, has_column, enter, enter_all, official_of, read_rne,
}
use paraphe.Crossing.Sources.Register.{people}
use paraphe.Crossing.Sources.Register
use paraphe.Crossing.Directory.{Json}
use paraphe.Crossing.Directory.Cards
use paraphe.Crossing.Rows.{tag_candidate, strip_tier}
use paraphe.Crossing.Rows.Ranks.{row_of}
use paraphe.Crossing.Rows.Ranks
use paraphe.Crossing.Files.{former_file, base_file, target_file}
use paraphe.Crossing.Files.Shape
use paraphe.Mailing.{mail_list, send_all, nothing_sent}

abbrev rne_file : Text
rne_file =
    codes "a;Libellé du département;c;Libellé de la collectivité à statut particulier;"
    ++ (codes "Code de la commune;Libellé de la commune;Nom de l'élu;Prénom de l'élu;Code sexe\n"
        ++ codes "01;Ain;;;01053;Bourg;DUPONT;Jean;M\n972;;;Martinique;97209;Case;LEROY;Anne;F\n")

abbrev jean : Official
jean = record {
  dept = codes "Ain";
  insee = codes "01053";
  commune = codes "Bourg";
  last_name = codes "DUPONT";
  first_name = codes "Jean";
  sex = codes "M";
}

abbrev anne : Official
anne = record {
  dept = codes "Martinique";
  insee = codes "97209";
  commune = codes "Case";
  last_name = codes "LEROY";
  first_name = codes "Anne";
  sex = codes "F";
}

abbrev rne : Rne
rne = record {
  by_commune =
      (codes "AIN", (codes "BOURG", jean) ∷ [])
      ∷ (codes "MARTINIQUE", (codes "CASE", anne) ∷ [])
      ∷ [];
  by_person = (codes "AIN", jean ∷ []) ∷ (codes "MARTINIQUE", anne ∷ []) ∷ [];
}

rne_test : read_rne ascii rne_file ≡ some rne
unfolding read_rne check_header has_column enter enter_all official_of lookup insert text_eq
    parse_rows parse_records records_of fill assign scan step close_row field norm expand_saints
    replace_word collapse trim trim_end trim_start single_spaces replace_separators
    replace_ligatures is_space is_separator starts_space starts_word is_word
rne_test = refl

people-read_rne_example :
    people rne.by_person (codes "AIN")
    ≡ Register.of_department ascii (codes "AIN") (drop 1 (parse_rows rne_file b';'))
people-read_rne_example = Register.people-read_rne ascii rne_file rne (codes "AIN") rne_test

abbrev directory_file : Text
directory_file =
    codes "pivot;code_insee_commune;nom;adresse_courriel;telephone;site_internet;adresse;"
    ++ (codes "formulaire_contact;plage_ouverture\n"
        ++ (codes "m;01053;Mairie annexe - Brou;;;;;;\nm;01053;Mairie - Bourg;b@ain.fr;;;;;h\n"
            ++ codes "m;01053;Mairie - Bourg-en-Bresse;;;;;;\n"))

-- A reader of two texts.
abbrev json : Json
json raw =
    if text_eq raw (codes "m")
    then some (((codes "type_service_local", codes "mairie") ∷ []) ∷ [])
    else if text_eq raw (codes "h")
    then some (
        ((codes "nom_jour_debut", codes "Lundi")
          ∷ (codes "nom_jour_fin", codes "Vendredi")
          ∷ (codes "valeur_heure_debut_1", codes "09:00:00")
          ∷ (codes "valeur_heure_fin_1", codes "12:00:00")
          ∷ [])
        ∷ [])
    else none

abbrev bourg : Contact
bourg = record {
  card_name = codes "Mairie - Bourg";
  email = codes "b@ain.fr";
  phone = [];
  street = [];
  zip = [];
  city = [];
  website = [];
  contact_form = [];
  hours = codes "Lun-Ven 09:00-12:00";
}

abbrev cards : List (Text × Contact)
cards = (codes "01053", bourg) ∷ []

tag_test : tag_candidate (codes "2017: LASSALLE Jean (B)") ≡ codes "LASSALLE Jean"
unfolding tag_candidate strip_tier cut_at starts_with text_eq
tag_test = refl

abbrev kept : List Target
kept =
    record {
      person = record {
        civ = codes "M.";
        last_name = codes "DUPONT";
        first_name = codes "Jean";
        commune = codes "Bourg";
        dept = codes "Ain";
        office = codes "Maire";
        small = codes "2017: LASSALLE Jean (B)" ∷ [];
        others = [];
        years = 2017 ∷ [];
        score = 1;
        status = none;
        commune_insee = none;
        dept_n = codes "AIN";
        commune_n = codes "BOURG";
      };
      rne = record anne { insee = codes "01053" };
      contact = none;
      conf = codes "exact";
    }
    ∷ []

abbrev options : Options
options = record {
  signer = none;
  personal_note = none;
  today = record { day = codes "9"; month = 7; year = codes "2026" };
  phone_outreach = false;
}

mail_list-files_example :
    ((rows : List Person) → mail_list ascii [] [] options (former_file rows) ≡ none)
    × ((contacts : List (Text × Contact)) (kept : List Target) (former : List Person)
          (by_person : List (Text × List Official))
        → mail_list ascii [] [] options (base_file ascii contacts kept former by_person) ≡ none)
    × ((kept : List Target)
        → mail_list ascii [] [] options (target_file ascii kept)
          ≡ send_all ascii [] [] options (parse_records (target_file ascii kept) b';') nothing_sent)
mail_list-files_example = Shape.mail_list-files ascii [] [] options

abbrev templates : Row
templates = (codes "courrier_decouverte.txt", codes "{salutation},\n{contexte}") ∷ []

nobody_kept : any (has_code anne.insee) kept ≡ false
unfolding text_eq
nobody_kept = refl

base_row-IsDiscovery_example :
    ((text : Text)
      → letter ascii templates (row_of ascii cards kept [] anne) [] options ≡ done text
      → IsDiscovery ascii templates
          (row_of ascii cards kept [] anne)
          []
          options
          (codes "courrier")
          (printed text))
    × ((text : Text)
        → phone_script ascii templates (row_of ascii cards kept [] anne) [] options ≡ done text
        → IsDiscovery ascii templates
            (row_of ascii cards kept [] anne)
            []
            options
            (codes "telephone")
            (printed text))
    × ((mail : Email)
        → email ascii templates (row_of ascii cards kept [] anne) [] options ≡ done mail
        → IsDiscovery ascii templates
            (row_of ascii cards kept [] anne)
            []
            options
            (codes "email")
            (printed_mail mail))
base_row-IsDiscovery_example =
    Ranks.base_row-IsDiscovery ascii cards kept [] anne templates [] options nobody_kept
