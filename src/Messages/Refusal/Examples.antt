-- ===== src/Messages/Refusal/Examples.antt =====
-- Tests of `invalidTemplate`: six templates that are accepted.
use paraphe.Common.{false, [], ◌∷◌, codes, text_eq, starts_with, includes, ◌≡◌, refl}
use paraphe.Csv.{Row, field, join}
use paraphe.Texte.Ascii.{ascii}
use paraphe.Texte.Controls.{trim, trim_start, trim_end, is_space}
use paraphe.Messages.Words.{cut_at}
use paraphe.Messages.Rank.{has_endorsed, no_signal}
use paraphe.Messages.Render.{
  read_pieces, read_brace, substitute, render, tidy, collapse_lines, strip_blanks, replace_cr,
  replace_crlf, join_parts, split, split_from,
}
use paraphe.Messages.Fields.{Today, by_rank, shared_fields}
use paraphe.Messages.Engine.{
  template_name, compose, of_render, of_fields, of_text, letter, phone_script, email, split_subject,
  first_line,
}
use paraphe.Messages.Refusal.{no_options, is_invalid, refused_at, is_refused}
use paraphe.Messages.Refusal.Promise.{
  sample-endorser, sample-unknown, sample-fields, is_refused-known,
}

abbrev first_day : Today
first_day = record { day = codes "1"; month = 0; year = codes "2027" }

abbrev six_texts : Row
six_texts =
    (codes "email.txt", codes "OBJET: a\nb")
    ∷ (codes "email_decouverte.txt", codes "OBJET: a\nb")
    ∷ (codes "courrier.txt", codes "{prenom}")
    ∷ (codes "courrier_decouverte.txt", codes "{contexte}{prenom}")
    ∷ (codes "telephone.txt", codes "a")
    ∷ (codes "telephone_decouverte.txt", codes "{contexte_tel}")
    ∷ []

accepted_thanks : refused_at ascii first_day six_texts has_endorsed ≡ false
unfolding refused_at email letter phone_script compose of_text of_fields of_render template_name
    render read_pieces read_brace substitute by_rank shared_fields field text_eq tidy collapse_lines
    strip_blanks replace_cr replace_crlf join join_parts split split_from trim trim_start trim_end
    is_space starts_with includes split_subject first_line cut_at
accepted_thanks = rw (sample-fields ascii first_day refl has_endorsed, sample-endorser) refl

accepted_discovery : refused_at ascii first_day six_texts no_signal ≡ false
unfolding refused_at email letter phone_script compose of_text of_fields of_render template_name
    render read_pieces read_brace substitute by_rank shared_fields field text_eq tidy collapse_lines
    strip_blanks replace_cr replace_crlf join join_parts split split_from trim trim_start trim_end
    is_space starts_with includes split_subject first_line cut_at
accepted_discovery = rw (sample-fields ascii first_day refl no_signal, sample-unknown) refl

six_texts_accepted : is_refused ascii first_day six_texts ≡ false
unfolding is_refused
six_texts_accepted = rw (accepted_thanks, accepted_discovery) refl

abbrev unlisted_mayor : Row
unlisted_mayor =
    (codes "rank", codes "commune_has_endorsed")
    ∷ (codes "title", codes "M.")
    ∷ (codes "first_name", codes "Jean")
    ∷ (codes "last_name", codes "DUPONT")
    ∷ (codes "commune", codes "Rennes")
    ∷ []

is_refused-known_example :
    (is_invalid (letter ascii six_texts unlisted_mayor [] (no_options first_day)) ≡ false)
    × (is_invalid (phone_script ascii six_texts unlisted_mayor [] (no_options first_day)) ≡ false)
    × (is_invalid (compose ascii six_texts unlisted_mayor [] (no_options first_day) (codes "email"))
        ≡ false)
is_refused-known_example =
    is_refused-known ascii first_day refl six_texts unlisted_mayor [] (no_options first_day)
      six_texts_accepted
