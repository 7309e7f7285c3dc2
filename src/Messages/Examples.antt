-- ===== src/Messages/Examples.antt =====
-- Tests of the engine of messages, and its theorems at concrete inputs.
use paraphe.Common.{
  true, false, none, some, [], ◌∷◌, ◌++◌, Text, codes, text_eq, ◌≡◌, ◌≢◌, ◌⊎◌, refl, ap, All,
  includes, starts_with,
}
use paraphe.Csv.{Row, field, lf, join}
use paraphe.Texte.Difflib.{find}
use paraphe.Texte.Controls.{
  trim, strip_controls, squeeze, decode_all, decode, is_control, is_space, starts_space, trim_start,
  trim_end,
}
use paraphe.Texte.Controls.Clean.{IsPlain, IsSpaced}
use paraphe.Texte.Controls.Clean
use paraphe.Texte.Ascii.{ascii}
use paraphe.Messages.Render.{
  render, tidy, substitute, read_pieces, read_brace, collapse_lines, strip_blanks, replace_cr,
  replace_crlf, split, split_from, join_parts,
}
use paraphe.Messages.Render.Tidy.{IsTidy}
use paraphe.Messages.Render.Tidy
use paraphe.Messages.Render.Pieces.{braced}
use paraphe.Messages.Render.Pieces
use paraphe.Messages.Templates.{merge_templates}
use paraphe.Messages.Templates.Inherit.{IsRecord, IsSilent}
use paraphe.Messages.Templates.Inherit
use paraphe.Messages.Address.Emails
use paraphe.Messages.Commune.{
  elided_commune, elided, inverted, reordered, elided_within, bracketed, before_bracket, is_glued,
  starts_with_vowel,
}
use paraphe.Messages.Commune.Elision
use paraphe.Messages.Rank.{has_endorsed, rank, is_woman, context}
use paraphe.Texte.Norm.{strip_dot}
use paraphe.Messages.Fields.{
  Options, fields, by_rank, shared_fields, volunteer_text, replace_braces,
}
use paraphe.Messages.Engine.{
  done, Email, letter, phone_script, email, compose, of_fields, of_render, template_name,
}
use paraphe.Messages.Render.Printed.{printed}
use paraphe.Messages.Engine.Subject.{printed_mail}
use paraphe.Messages.Engine.Discovery.{IsDiscovery}
use paraphe.Messages.Engine.Discovery

abbrev templates : Row
templates =
    (
      codes "courrier_decouverte.txt",
      codes "{salutation} {prenom} {nom},\n\n\n{ contexte }\n\nCordialement — {site}",
    )
    ∷ []

abbrev mayor : Row
mayor =
    (codes "rank", codes "no_signal")
    ∷ (codes "title", codes "Mme.")
    ∷ (codes "first_name", codes "Anne")
    ∷ (codes "last_name", codes "Roche")
    ∷ (codes "commune", codes "Rodez")
    ∷ []

abbrev options : Options
options = record {
  signer = none;
  personal_note = none;
  today = record { day = codes "9"; month = 7; year = codes "2026" };
  phone_outreach = false;
}

letter_test :
    letter ascii templates mayor [] options
    ≡ done (codes "Madame la Maire Anne Roche,\n\nCordialement\n")
unfolding letter compose of_fields of_render fields by_rank shared_fields rank is_woman strip_dot
    context volunteer_text replace_braces template_name strip_controls squeeze decode_all decode
    find is_control is_space starts_space trim trim_start trim_end field text_eq render substitute
    read_pieces read_brace tidy collapse_lines strip_blanks replace_cr replace_crlf join split
    split_from join_parts includes starts_with elided_commune elided_within inverted bracketed
    before_bracket reordered is_glued elided starts_with_vowel
letter_test = refl

strip_controls-IsClean_example :
    IsPlain (strip_controls (some (codes " a\nb ")))
    × IsSpaced (strip_controls (some (codes " a\nb ")))
    × (trim (strip_controls (some (codes " a\nb "))) ≡ strip_controls (some (codes " a\nb ")))
    × (strip_controls (some (strip_controls (some (codes " a\nb "))))
        ≡ strip_controls (some (codes " a\nb ")))
strip_controls-IsClean_example = Clean.strip_controls-IsClean (some (codes " a\nb "))

chalesmes_test : elided_commune ascii (codes "Chalesmes (Les)") ≡ codes "des Chalesmes"
unfolding elided_commune elided_within inverted bracketed before_bracket reordered is_glued elided
    starts_with_vowel is_space trim trim_start trim_end starts_with text_eq
chalesmes_test = refl

elided_commune_lem_example :
    ((bare : Text) × (article : Text) × (inverted (codes "Chalesmes (Les)") ≡ some (bare, article))
      × (elided_commune ascii (codes "Chalesmes (Les)")
          ≡ elided_commune ascii (reordered bare article)))
    ⊎ ((inverted (codes "Chalesmes (Les)") ≡ none)
        × (elided_commune ascii (codes "Chalesmes (Les)") ≡ elided ascii (codes "Chalesmes (Les)")))
elided_commune_lem_example = Elision.elided_commune_lem ascii b'C' (codes "halesmes (Les)")

abbrev one_template : Row
one_template = (codes "t", codes "Bonjour { nom },") ∷ []

abbrev one_field : Row
one_field = (codes "nom", codes "Roche") ∷ []

rendered : render one_template (codes "t") one_field ≡ some (codes "Bonjour Roche,\n")
unfolding render substitute read_pieces read_brace tidy collapse_lines strip_blanks replace_cr
    replace_crlf join split split_from join_parts includes starts_with field text_eq trim trim_start
    trim_end is_space
rendered = refl

render-IsTidy_example :
    (body : Text) × (codes "Bonjour Roche,\n" ≡ body ++ lf ∷ [])
    × (trim body ≡ body)
    × IsTidy (codes "Bonjour Roche,\n")
render-IsTidy_example =
    Tidy.render-IsTidy one_template one_field (codes "t") (codes "Bonjour Roche,\n") rendered

one_template-present :
    field one_template (codes "t") ≡ some (codes "Bonjour " ++ braced (codes " nom ") (codes ","))
unfolding field text_eq
one_template-present = refl

nom-IsKey : Pieces.IsKey (codes " nom ")
nom-IsKey = record {
  not_nil = refl;
  no_opening = (refl, (refl, (refl, (refl, (refl, tt)))));
  no_closing = (refl, (refl, (refl, (refl, (refl, tt)))));
}

render-braced_example : (value : Text) × (field one_field (trim (codes " nom ")) ≡ some value)
render-braced_example =
    Pieces.render-braced one_template one_field (codes "t") (codes "Bonjour ") (codes " nom ")
      (codes ",") (codes "Bonjour Roche,\n") nom-IsKey one_template-present rendered

unknown_mayor : rank mayor ≢ has_endorsed
unfolding rank strip_controls squeeze decode_all decode find is_control is_space starts_space trim
    trim_start trim_end field text_eq
unknown_mayor e = let p : false ≡ true = ap (λ r. text_eq r has_endorsed) e in cc

message-IsDiscovery_example :
    ((text : Text)
      → letter ascii templates mayor [] options ≡ done text
      → IsDiscovery ascii templates mayor [] options (codes "courrier") (printed text))
    × ((text : Text)
        → phone_script ascii templates mayor [] options ≡ done text
        → IsDiscovery ascii templates mayor [] options (codes "telephone") (printed text))
    × ((mail : Email)
        → email ascii templates mayor [] options ≡ done mail
        → IsDiscovery ascii templates mayor [] options (codes "email") (printed_mail mail))
message-IsDiscovery_example =
    Discovery.message-IsDiscovery ascii templates mayor [] options unknown_mayor

abbrev campaign_layer : Row
campaign_layer = (codes "email.txt", codes "Bonjour") ∷ []

abbrev team_layer : Row
team_layer = (codes "email.txt", codes " ") ∷ (codes "courrier.txt", codes "Madame") ∷ []

abbrev image : Row
image = (codes "email.txt", codes "OBJET:") ∷ (codes "telephone.txt", codes "Bonjour") ∷ []

two_layers-IsRecord : All IsRecord (campaign_layer ∷ team_layer ∷ [])
unfolding IsRecord field text_eq
two_layers-IsRecord = ((refl, tt), ((refl, (refl, tt)), tt))

field-merge_templates_example :
    field (merge_templates image (campaign_layer ∷ team_layer ∷ [])) (codes "email.txt")
    ≡ some (codes "Bonjour")
unfolding field trim trim_end trim_start is_space IsSilent
field-merge_templates_example =
    Inherit.field-merge_templates [] campaign_layer (team_layer ∷ []) image (codes "email.txt")
      (codes "Bonjour") two_layers-IsRecord refl refl (refl, tt)

abbrev two_addresses : Row
two_addresses = (codes "email", codes "a@x.fr; b") ∷ []
