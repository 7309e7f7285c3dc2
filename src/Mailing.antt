-- ===== src/Mailing.antt =====
-- outils/messages-masse.ts: the mass mailing.
pub mod Escape
pub mod Accounts
pub mod Errors
mod Examples
use paraphe.Common.{
  ℕ, Bool, true, false, not, ◌&&◌, ◌||◌, Option, none, some, List, [], ◌∷◌, ◌++◌, map, Text, codes,
  text_eq, any, keep, ◌==◌, if◌then◌else◌, or_else, ◌>>=◌,
}
use paraphe.Csv.{Row, field, join, lf, quote, parse_rows, parse_records}
use paraphe.Texte.Controls.{is_nil}
use paraphe.Texte.Unicode.{Unicode}
use paraphe.Crossing.Sources.{header_of}
use paraphe.Messages.Fields.{Options}
use paraphe.Messages.Engine.{Attempt, done, missing_field, invalid_template, Email, email, letter}
use paraphe.Messages.Address.{
  Addresses, email_addresses, incomplete_address, recipient_address, letter_header,
}

-- `escapeHtml`: the five replacements act on different characters, and only the first writes one
-- of them, before the others.
unfoldable pub escape_html : Text → Text
escape_html [] = []
escape_html (c ∷ s) =
    (if c == b'&'
      then codes "&amp;"
      else if c == b'<'
      then codes "&lt;"
      else if c == b'>'
      then codes "&gt;"
      else if c == quote
      then codes "&quot;"
      else if c == b'\''
      then codes "&#x27;"
      else c ∷ [])
    ++ escape_html s

-- `PAGE`
unfoldable pub page : Text → Text → Text → Text → Text
page sender address place_date body =
    codes "<div class=\"lettre\">\n<div class=\"expediteur\">"
    ++ (sender
        ++ (codes "</div>\n<div class=\"adresse\">"
            ++ (address
                ++ (codes "</div>\n<div class=\"date\">"
                    ++ (place_date
                        ++ (codes "</div>\n<div class=\"corps\">"
                            ++ (body ++ codes "</div>\n</div>\n")))))))

-- The test of the columns: the file is file 01.
unfoldable pub has_shape : List Text → Bool
has_shape columns =
    any (text_eq (codes "small_candidate_endorsements")) columns
    && any (text_eq (codes "commune_2026")) columns
    && not (any (text_eq (codes "rank")) columns)

-- `m[key] ?? ""`
abbrev pub column : Row → Text → Text × Text
column m key = (key, or_else (field m key) [])

abbrev filled : List Text → List Text
filled parts = keep (λ t. not (is_nil t)) parts

abbrev of_campaign : Row → Text → Text
of_campaign c key = or_else (field c key) []

-- `sender`
unfoldable pub sender_of : Row → Text
sender_of c =
    join
      (filled (
        join
          (filled
            (of_campaign c (codes "signataire") ∷ of_campaign c (codes "signataire_qualite") ∷ []))
          (codes ", ")
        ∷ of_campaign c (codes "contact_email")
        ∷ of_campaign c (codes "contact_tel")
        ∷ []))
      (lf ∷ [])

-- Who is set aside, for which channel and why; `none` is the text of a `MissingField`.
pub record Aside : Type 0 where
  pub mayor : Row
  pub channel : Text
  pub reason : Option Text

pub record Mailing : Type 0 where
  pub with_email : List Row
  pub without_email : List Row
  pub pages : List Text
  pub set_aside : List Aside

abbrev pub nothing_sent : Mailing
nothing_sent = record { with_email = []; without_email = []; pages = []; set_aside = [] }

-- `putAside`
unfoldable pub put_aside : Row → Text → Option Text → Mailing → Mailing
put_aside m channel reason x = record x {
  set_aside = x.set_aside ++ record { mayor = m; channel = channel; reason = reason } ∷ [];
}

-- The row of `emails.csv` for the address `a`; `others` are the other addresses of the mayor.
unfoldable pub email_row : Row → Email → Text → List Text → Row
email_row m mail a others =
    (codes "email", a)
    ∷ (codes "subject", mail.subject)
    ∷ (codes "body", mail.body)
    ∷ column m (codes "commune")
    ∷ column m (codes "department")
    ∷ column m (codes "last_name")
    ∷ column m (codes "first_name")
    ∷ column m (codes "priority")
    ∷ (codes "other_addresses", join others (codes " "))
    ∷ []

-- The round as to the email.
unfoldable pub reach : Row → Email → List Text → Option Text → Mailing → Mailing
reach m mail (a ∷ others) bad x = record x {
  with_email = x.with_email ++ email_row m mail a others ∷ [];
}
reach m mail [] none x = record x { without_email = x.without_email ++ m ∷ [] }
reach m mail [] (some reason) x =
    put_aside m (codes "aucun")
      (some
        (codes "ni adresse email exploitable, ni courrier distribuable (" ++ (reason ++ codes ")")))
      x

-- The round as to the addresses that are no addresses.
unfoldable pub report_rejected : Row → List Text → Mailing → Mailing
report_rejected m [] x = x
report_rejected m (t ∷ rejected) x =
    put_aside m (codes "email")
      (some (codes "adresse(s) non conforme(s) : " ++ join (t ∷ rejected) (codes ", "))) x

-- The three texts for a mayor.
pub record Draft : Type 0 where
  pub mail : Email
  pub body : Text
  pub address : Text

module _ (unicode : Unicode) (templates c : Row) (opts : Options) where
  abbrev pub of_address : Email → Text → Option Text → Attempt Draft
  of_address mail body none = missing_field
  of_address mail body (some address) =
      done (record { mail = mail; body = body; address = address })

  abbrev pub of_letter : Row → Email → Attempt Text → Attempt Draft
  of_letter m mail (done body) = of_address mail body (recipient_address unicode m)
  of_letter m mail missing_field = missing_field
  of_letter m mail invalid_template = invalid_template

  abbrev pub of_email : Row → Attempt Email → Attempt Draft
  of_email m (done mail) = of_letter m mail (letter unicode templates m c opts)
  of_email m missing_field = missing_field
  of_email m invalid_template = invalid_template

  -- The body of the `try`.
  unfoldable pub draft : Row → Attempt Draft
  draft m = of_email m (email unicode templates m c opts)

  -- The round as to the letter; `none` is an error. `letterHeader` is called without options.
  unfoldable pub print : Row → Draft → List Text → Option Text → Mailing → Option Mailing
  print m d valid none x = do
    header ← letter_header unicode m c (record opts { phone_outreach = false })
    some (record x {
      pages =
          x.pages
          ++ page (escape_html (sender_of c)) (escape_html d.address) (escape_html header)
              (escape_html d.body)
            ∷ [];
    })
  print m d [] (some reason) x = some x
  print m d (a ∷ others) (some reason) x = some (put_aside m (codes "courrier") (some reason) x)

  -- A round of the loop, by what the `try` gives; `none` is an error.
  unfoldable pub send : Row → Attempt Draft → Mailing → Option Mailing
  send m (done d) x =
      let found = email_addresses m in
      let bad = incomplete_address m in
      print m d found.valid bad
        (report_rejected m found.rejected (reach m d.mail found.valid bad x))
  send m missing_field x = some (put_aside m (codes "email+courrier") none x)
  send m invalid_template x = none

  unfoldable pub send_all : List Row → Mailing → Option Mailing
  send_all [] x = some x
  send_all (m ∷ mayors) x = do x' ← send m (draft m) x; send_all mayors x'

  -- `main` on the text of the list; `none` is an error, and no file is written then.
  unfoldable pub mail_list : Text → Option Mailing
  mail_list text =
      let rows = parse_rows text b';' in
      if not (has_shape (header_of rows))
      then none
      else send_all (parse_records text b';') nothing_sent
