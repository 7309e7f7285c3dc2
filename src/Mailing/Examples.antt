-- ===== src/Mailing/Examples.antt =====
-- Tests of the mass mailing, and its theorems at concrete inputs.
use paraphe.Common.{
  true, false, none, some, List, [], ◌∷◌, ◌++◌, Text, codes, text_eq, length, All, Exists, or_else,
  ◌≡◌, ◌↔◌, refl, starts_with, includes,
}
use paraphe.Csv.{
  Row, field, parse_rows, parse_records, records_of, fill, assign, scan, step, close_row, join,
}
use paraphe.Texte.Ascii.{ascii}
use paraphe.Texte.Difflib.{find}
use paraphe.Texte.Norm.{strip_dot}
use paraphe.Texte.Controls.{
  trim, strip_controls, squeeze, decode_all, decode, is_control, is_space, starts_space, trim_start,
  trim_end,
}
use paraphe.Messages.Words.{endorsements_prose, endorsements_from, cut_at, strip_class}
use paraphe.Messages.Render.{
  render, tidy, substitute, read_pieces, read_brace, collapse_lines, strip_blanks, replace_cr,
  replace_crlf, split, split_from, join_parts,
}
use paraphe.Messages.Commune.{
  elided_commune, elided, inverted, reordered, elided_within, bracketed, before_bracket, is_glued,
  starts_with_vowel,
}
use paraphe.Messages.Rank.{rank, is_woman, mayor_title, context}
use paraphe.Messages.Fields.{
  Options, fields, by_rank, shared_fields, volunteer_text, replace_braces, endorsements_of,
}
use paraphe.Messages.Engine.{
  letter, email, compose, of_fields, of_render, of_text, split_subject, first_line, template_name,
}
use paraphe.Messages.Address.{
  email_addresses, sort_addresses, split_addresses, incomplete_address, recipient_address,
  letter_header, postal_city,
}
use paraphe.Mailing.{
  Mailing, nothing_sent, draft, print, send, send_all, mail_list, has_shape, put_aside, reach,
  report_rejected, escape_html, page, sender_of, email_row,
}
use paraphe.Crossing.Sources.{header_of}
use paraphe.Mailing.Escape.{shown, is_markup}
use paraphe.Mailing.Escape
use paraphe.Mailing.Accounts.{handled}
use paraphe.Mailing.Accounts
use paraphe.Mailing.Errors.{IsInvalid}
use paraphe.Mailing.Errors

shown-escape_html_example :
    (shown 0 (escape_html (codes "<b>l'A&B")) ≡ codes "<b>l'A&B")
    × All (λ c. is_markup c ≡ false) (escape_html (codes "<b>l'A&B"))
shown-escape_html_example = Escape.shown-escape_html (codes "<b>l'A&B")

abbrev templates : Row
templates =
    (codes "email.txt", codes "OBJET: Merci\nBonjour {nom}")
    ∷ (codes "courrier.txt", codes "Bonjour {nom}")
    ∷ []

abbrev options : Options
options = record {
  signer = none;
  personal_note = none;
  today = record { day = codes "9"; month = 7; year = codes "2026" };
  phone_outreach = false;
}

abbrev list : Text
list =
    codes
      "title;first_name;last_name;commune;recent_candidate;recent_year;postal_code;commune_2026;"
    ++ (codes "small_candidate_endorsements\n"
        ++ (codes "M.;Jean;Roche;Rodez;Lassalle;2022;12000;Rodez;\n"
            ++ codes ";Anne;Mas;Figeac;Lassalle;2022;;Figeac;\n"))

abbrev mayors : List Row
mayors =
    ((codes "title", codes "M.")
      ∷ (codes "first_name", codes "Jean")
      ∷ (codes "last_name", codes "Roche")
      ∷ (codes "commune", codes "Rodez")
      ∷ (codes "recent_candidate", codes "Lassalle")
      ∷ (codes "recent_year", codes "2022")
      ∷ (codes "postal_code", codes "12000")
      ∷ (codes "commune_2026", codes "Rodez")
      ∷ (codes "small_candidate_endorsements", [])
      ∷ [])
    ∷ ((codes "title", [])
        ∷ (codes "first_name", codes "Anne")
        ∷ (codes "last_name", codes "Mas")
        ∷ (codes "commune", codes "Figeac")
        ∷ (codes "recent_candidate", codes "Lassalle")
        ∷ (codes "recent_year", codes "2022")
        ∷ (codes "postal_code", [])
        ∷ (codes "commune_2026", codes "Figeac")
        ∷ (codes "small_candidate_endorsements", [])
        ∷ [])
    ∷ []

abbrev sent : Mailing
sent = or_else (send_all ascii templates [] options mayors nothing_sent) nothing_sent

sent_all : send_all ascii templates [] options mayors nothing_sent ≡ some sent
unfolding letter compose of_fields of_render fields by_rank shared_fields rank is_woman strip_dot
    context volunteer_text replace_braces template_name strip_controls squeeze decode_all decode
    find is_control is_space starts_space trim trim_start trim_end field text_eq render substitute
    read_pieces read_brace tidy collapse_lines strip_blanks replace_cr replace_crlf join split
    split_from join_parts includes starts_with elided_commune elided_within inverted bracketed
    before_bracket reordered is_glued elided starts_with_vowel email of_text split_subject
    first_line cut_at endorsements_prose endorsements_from strip_class endorsements_of
    email_addresses sort_addresses split_addresses incomplete_address recipient_address
    letter_header postal_city mayor_title mail_list has_shape send_all send draft print put_aside
    reach report_rejected escape_html page sender_of email_row parse_rows parse_records records_of
    fill assign scan step close_row
sent_all = refl

parsed : parse_records list b';' ≡ mayors
unfolding parse_rows parse_records records_of fill assign scan step close_row field text_eq
parsed = refl

shaped : has_shape (header_of (parse_rows list b';')) ≡ true
unfolding parse_rows parse_records records_of fill assign scan step close_row field text_eq
    has_shape
shaped = refl

sent_test : mail_list ascii templates [] options list ≡ some sent
unfolding mail_list
sent_test = rw (shaped, parsed) sent_all

handled-mail_list_example : handled sent ≡ length (parse_records list b';')
handled-mail_list_example =
    Accounts.handled-mail_list ascii templates [] options list sent sent_test

abbrev jean : Row
jean =
    (codes "title", codes "M.")
    ∷ (codes "first_name", codes "Jean")
    ∷ (codes "last_name", codes "Roche")
    ∷ (codes "commune", codes "Rodez")
    ∷ (codes "recent_candidate", codes "Lassalle")
    ∷ (codes "recent_year", codes "2022")
    ∷ []

send_all-none_example :
    (send_all ascii [] [] options (jean ∷ []) nothing_sent ≡ none)
    ↔ Exists (IsInvalid ascii [] [] options) (jean ∷ [])
send_all-none_example = Errors.send_all-none ascii [] [] options (jean ∷ []) nothing_sent

no_template_test : send_all ascii [] [] options (jean ∷ []) nothing_sent ≡ none
unfolding letter compose of_fields of_render fields by_rank shared_fields rank is_woman strip_dot
    context volunteer_text replace_braces template_name strip_controls squeeze decode_all decode
    find is_control is_space starts_space trim trim_start trim_end field text_eq render substitute
    read_pieces read_brace tidy collapse_lines strip_blanks replace_cr replace_crlf join split
    split_from join_parts includes starts_with elided_commune elided_within inverted bracketed
    before_bracket reordered is_glued elided starts_with_vowel email of_text split_subject
    first_line cut_at endorsements_prose endorsements_from strip_class endorsements_of
    email_addresses sort_addresses split_addresses incomplete_address recipient_address
    letter_header postal_city mayor_title mail_list has_shape send_all send draft print put_aside
    reach report_rejected escape_html page sender_of email_row parse_rows parse_records records_of
    fill assign scan step close_row
no_template_test = refl
