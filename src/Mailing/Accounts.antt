-- ===== src/Mailing/Accounts.antt =====
-- outils/messages-masse.ts: every mayor of the list ends in one of the files.
use paraphe.Common.{
  ℕ, suc, ◌+◌, Bool, false, ◌||◌, Option, none, some, List, [], ◌∷◌, Text, codes, text_eq, keep,
  length, length-append, length-keep-append, bind-some, passed-some, ◌≡◌, refl, sym, ap, ◌∙◌, arith,
}
use mathlib.Core.Option.{some-injective, none-ne-some}
use paraphe.Csv.{Row, parse_records}
use paraphe.Texte.Unicode.{Unicode}
use paraphe.Messages.Fields.{Options}
use paraphe.Messages.Engine.{Attempt, done, missing_field, invalid_template, Email}
use paraphe.Messages.Address.{email_addresses, incomplete_address, letter_header}
use paraphe.Mailing.{
  Aside, Mailing, nothing_sent, Draft, put_aside, reach, report_rejected, print, send, draft,
  send_all, mail_list,
}

-- Set aside for every channel, rather than for one address or for the letter only.
abbrev pub is_out : Aside → Bool
is_out a = text_eq a.channel (codes "email+courrier") || text_eq a.channel (codes "aucun")

abbrev pub handled : Mailing → ℕ
handled x = length x.with_email + length x.without_email + length (keep is_out x.set_aside)

handled-reach :
    (m : Row) (mail : Email) (valid : List Text) (bad : Option Text) (x : Mailing)
    → handled (reach m mail valid bad x) ≡ suc (handled x)
unfolding reach put_aside text_eq
handled-reach m mail (a ∷ others) bad x = omega (arith, length-append x.with_email (_ ∷ []))
handled-reach m mail [] none x = omega (arith, length-append x.without_email (m ∷ []))
handled-reach m mail [] (some reason) x =
    omega (arith, length-keep-append is_out x.set_aside (_ ∷ []))

handled-report_rejected :
    (m : Row) (rejected : List Text) (x : Mailing)
    → handled (report_rejected m rejected x) ≡ handled x
unfolding report_rejected put_aside text_eq
handled-report_rejected m [] x = refl
handled-report_rejected m (t ∷ rejected) x =
    omega (arith, length-keep-append is_out x.set_aside (_ ∷ []))

module _ (unicode : Unicode) (templates c : Row) (opts : Options) where
  handled-print :
      (m : Row) (d : Draft) (valid : List Text) (bad : Option Text) (x y : Mailing)
      → print unicode templates c opts m d valid bad x ≡ some y
      → handled y ≡ handled x
  unfolding print put_aside text_eq
  handled-print m d valid none x y h =
      let (header, _, k) =
        bind-some (letter_header unicode m c (record opts { phone_outreach = false })) _ y h in
      sym (ap handled (some-injective _ y k))
  handled-print m d [] (some reason) x y h = sym (ap handled (some-injective x y h))
  handled-print m d (a ∷ others) (some reason) x y h =
      sym (ap handled (some-injective _ y h))
      ∙ omega (arith, length-keep-append is_out x.set_aside (_ ∷ []))

  handled-send :
      (m : Row) (d : Attempt Draft) (x y : Mailing)
      → send unicode templates c opts m d x ≡ some y
      → handled y ≡ suc (handled x)
  unfolding send put_aside text_eq
  handled-send m (done d) x y h =
      let found = email_addresses m in
      let bad = incomplete_address m in
      let reached = reach m d.mail found.valid bad x in
      omega (
        arith,
        handled-print m d found.valid bad (report_rejected m found.rejected reached) y h,
        handled-report_rejected m found.rejected reached,
        handled-reach m d.mail found.valid bad x,
      )
  handled-send m missing_field x y h =
      sym (ap handled (some-injective _ y h))
      ∙ omega (arith, length-keep-append is_out x.set_aside (_ ∷ []))
  handled-send m invalid_template x y h = absurd (none-ne-some y h)

  handled-send_all :
      (mayors : List Row) (x y : Mailing)
      → send_all unicode templates c opts mayors x ≡ some y
      → handled y ≡ length mayors + handled x
  unfolding send_all
  handled-send_all [] x y h = rw (sym (some-injective x y h)) (omega arith)
  handled-send_all (m ∷ mayors) x y h =
      let (n, e, k) =
        bind-some (send unicode templates c opts m (draft unicode templates c opts m) x) _ y h in
      omega (arith, handled-send m _ x n e, handled-send_all mayors n y k)

  -- Nobody is dropped in silence: if the mailing ends without an error, the rows of `emails.csv`, the
  -- mayors of `sans_email.csv` and those set aside for every channel are together as many as the
  -- mayors of the list.
  pub handled-mail_list :
      (text : Text) (y : Mailing)
      → mail_list unicode templates c opts text ≡ some y
      → handled y ≡ length (parse_records text b';')
  unfolding mail_list
  handled-mail_list text y h =
      let sent =
        passed-some _ (send_all unicode templates c opts (parse_records text b';') nothing_sent) y
          h in
      omega (arith, handled-send_all (parse_records text b';') nothing_sent y sent)
