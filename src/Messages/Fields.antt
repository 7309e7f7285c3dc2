-- ===== src/Messages/Fields.antt =====
-- noyau/messages.ts: `fields`, the values of the placeholders of one message.
use paraphe.Common.{
  ℕ, Bool, not, ◌&&◌, Option, none, some, List, [], ◌∷◌, ◌++◌, Text, codes, text_eq, ◌==◌,
  if◌then◌else◌, ◌>>=◌, get_elem?, or_else, any,
}
use paraphe.Csv.{Row, field}
use paraphe.Texte.Controls.{strip_controls, is_nil}
use paraphe.Texte.Unicode.{Unicode}
use paraphe.Messages.Words.{readable_history, endorsements_prose}
use paraphe.Messages.Commune.{elided_commune}
use paraphe.Messages.Rank.{
  cleaned, has_endorsed, commune_has_endorsed, rank, is_woman, title_of, context,
}

abbrev months : List Text
months =
    codes "janvier"
    ∷ codes "février"
    ∷ codes "mars"
    ∷ codes "avril"
    ∷ codes "mai"
    ∷ codes "juin"
    ∷ codes "juillet"
    ∷ codes "août"
    ∷ codes "septembre"
    ∷ codes "octobre"
    ∷ codes "novembre"
    ∷ codes "décembre"
    ∷ []

-- What is read of a `Date`: the month counts from 0, the day and the year are given as printed.
pub record Today : Type 0 where
  pub day : Text
  pub month : ℕ
  pub year : Text

-- `Options` with its defaults filled in.
pub record Options : Type 0 where
  pub signer : Option Text
  pub personal_note : Option Text
  pub today : Today
  pub phone_outreach : Bool

unfoldable pub replace_braces : Text → Text
replace_braces [] = []
replace_braces (c ∷ s) =
    (if c == b'{' then b'(' else if c == b'}' then b')' else c) ∷ replace_braces s

unfoldable pub volunteer_text : Option Text → Text
unfolding strip_controls replace_braces
volunteer_text v = replace_braces (strip_controls v)

-- `s || t`
abbrev pub text_or : Text → Text → Text
text_or s t = if is_nil s then t else s

-- The columns without which no message is written.
abbrev pub required_fields : Bool → List Text
required_fields endorser =
    codes "first_name"
    ∷ codes "last_name"
    ∷ codes "commune"
    ∷ (if endorser then codes "recent_candidate" ∷ codes "recent_year" ∷ [] else [])

-- `mayor.small_candidate_endorsements || mayor.endorsement_history`
unfoldable pub endorsements_of : Row → Option Text
unfolding field
endorsements_of mayor =
    let small = field mayor (codes "small_candidate_endorsements") in
    if is_nil (or_else small []) then field mayor (codes "endorsement_history") else small

abbrev pub date_of : Today → Text
date_of today =
    today.day
    ++ (codes " " ++ (or_else (get_elem? months today.month) [] ++ (codes " " ++ today.year)))

module _ (unicode : Unicode) where
  -- The placeholders that exist for one rank only.
  unfoldable pub by_rank : Row → Row
  unfolding rank field text_eq strip_controls context readable_history
  by_rank mayor =
      let phone_history = readable_history unicode (cleaned mayor (codes "endorsement_history")) in
      if text_eq (rank mayor) has_endorsed
      then (codes "candidat_recent", cleaned mayor (codes "recent_candidate"))
        ∷ (codes "annee_recente", cleaned mayor (codes "recent_year"))
        ∷ (codes "parrainages", endorsements_prose unicode (strip_controls (endorsements_of mayor)))
        ∷ []
      else (codes "contexte", context unicode mayor)
        ∷ (
          codes "contexte_tel",
          (if text_eq (rank mayor) commune_has_endorsed && not (is_nil phone_history)
              then codes " Sa commune l'a déjà fait "
                ++ ((if text_eq (cleaned mayor (codes "predecessor_mayor")) (codes "oui")
                      then codes "sous une précédente municipalité"
                      else codes "par le passé")
                    ++ (codes " : " ++ (phone_history ++ codes ".")))
              else []),
        )
        ∷ []

  -- The placeholders of every message.
  unfoldable pub shared_fields : Bool → Row → Row → Options → Row
  unfolding field strip_controls volunteer_text
  shared_fields woman mayor cfg opts =
      let of_campaign = λ (key : Text). volunteer_text (field cfg key) in
      let agreed = if woman then codes "sollicitée" else codes "sollicité" in
      (codes "salutation", title_of woman)
      ∷ (codes "salutation_courte", title_of woman)
      ∷ (codes "civilite", (if woman then codes "Mme" else codes "M."))
      ∷ (codes "civilite_courte", (if woman then codes "Madame" else codes "Monsieur"))
      ∷ (codes "seul_e", (if woman then codes "seule" else codes "seul"))
      ∷ (codes "sollicite_e", agreed)
      ∷ (codes "le_la", (if woman then codes "la" else codes "le"))
      ∷ (
        codes "proposition_telephone",
        (if opts.phone_outreach
            then codes "Accepteriez-vous d'en échanger quelques minutes par téléphone, ou "
              ++ (codes "que "
                  ++ (of_campaign (codes "candidat") ++ codes " vous appelle personnellement ?"))
            else []),
      )
      ∷ (
        codes "relance_telephone",
        (if opts.phone_outreach
            then codes "Nous nous permettrons de vous appeler dans les prochaines "
              ++ (codes "semaines. Si vous préférez ne pas être "
                  ++ (agreed ++ codes ", un mot suffira et nous le respecterons."))
            else []),
      )
      ∷ (codes "prenom", cleaned mayor (codes "first_name"))
      ∷ (codes "nom", cleaned mayor (codes "last_name"))
      ∷ (codes "commune", cleaned mayor (codes "commune"))
      ∷ (codes "commune_de", elided_commune unicode (cleaned mayor (codes "commune")))
      ∷ (codes "departement", cleaned mayor (codes "department"))
      ∷ (codes "email", cleaned mayor (codes "email"))
      ∷ (codes "telephone", text_or (cleaned mayor (codes "phone")) (codes "numéro non renseigné"))
      ∷ (
        codes "horaires",
        text_or (cleaned mayor (codes "town_hall_hours")) (codes "horaires non renseignés"),
      )
      ∷ (codes "adresse", cleaned mayor (codes "postal_address"))
      ∷ (codes "code_postal", cleaned mayor (codes "postal_code"))
      ∷ (codes "ville", cleaned mayor (codes "city"))
      ∷ (codes "date", date_of opts.today)
      ∷ (codes "candidat", of_campaign (codes "candidat"))
      ∷ (codes "candidat_description", of_campaign (codes "candidat_description"))
      ∷ (codes "candidat_description_longue", of_campaign (codes "candidat_description_longue"))
      ∷ (
        codes "signataire",
        text_or (volunteer_text opts.signer) (of_campaign (codes "signataire")),
      )
      ∷ (codes "signataire_qualite", of_campaign (codes "signataire_qualite"))
      ∷ (codes "contact_tel", of_campaign (codes "contact_tel"))
      ∷ (codes "contact_email", of_campaign (codes "contact_email"))
      ∷ (codes "site", of_campaign (codes "site"))
      ∷ (codes "ville_envoi", of_campaign (codes "ville_envoi"))
      ∷ (codes "argument_personnel", volunteer_text opts.personal_note)
      ∷ []

  -- `none` is `MissingField`.
  unfoldable pub fields : Row → Row → Options → Option Row
  fields mayor cfg opts =
      let endorser = text_eq (rank mayor) has_endorsed in
      if any (λ k. is_nil (cleaned mayor k)) (required_fields endorser) then none else do
        woman ← is_woman unicode mayor
        some (by_rank mayor ++ shared_fields woman mayor cfg opts)
