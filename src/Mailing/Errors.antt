-- ===== src/Mailing/Errors.antt =====
-- outils/messages-masse.ts: what stops the mailing.
use paraphe.Common.{
  Bool, true, false, Option, none, some, List, [], ◌∷◌, ◌++◌, Text, codes, text_eq, any,
  if◌then◌else◌, ◌>>=◌, Option-cases, Exists, ◌≡◌, ◌↔◌, refl, sym, subst, inl, inr, ◌⊎◌,
}
use mathlib.Core.Option.{none-ne-some}
use paraphe.Csv.{Row}
use paraphe.Texte.Unicode.{Unicode}
use paraphe.Texte.Controls.{is_nil}
use paraphe.Messages.Rank.{is_woman, cleaned, rank, has_endorsed}
use paraphe.Messages.Fields.{Options, fields, by_rank, shared_fields, required_fields}
use paraphe.Messages.Engine.{
  Attempt, done, missing_field, invalid_template, Email, email, compose, template_name,
}
use paraphe.Messages.Engine.Discovery.{of_fields-done, of_text-done}
use paraphe.Messages.Address.{letter_header, email_addresses, incomplete_address}
use paraphe.Mailing.{
  Mailing, Draft, draft, of_email, print, put_aside, reach, report_rejected, send, send_all,
}

mapped-some :
    {A B : Type 0} (o : Option A) (f : A → B) (a : A)
    → o ≡ some a
    → (b : B) × ((o >>= λ x. some (f x)) ≡ some b)
mapped-some none f a e = absurd (none-ne-some a e)
mapped-some (some x) f a e = (f x, refl)

same_errors :
    {A B : Type 0} (refused : Bool) (o : Option A) (f g : A → B) (b : B)
    → (if refused then none else (o >>= λ x. some (f x))) ≡ some b
    → (b' : B) × ((if refused then none else (o >>= λ x. some (g x))) ≡ some b')
same_errors true o f g b e = absurd (none-ne-some b e)
same_errors false none f g b e = absurd (none-ne-some b e)
same_errors false (some x) f g b e = (g x, refl)

module _ (unicode : Unicode) (templates c : Row) (opts : Options) where
  -- Whether there are fields does not depend on the options.
  fields-opts :
      (m ch : Row) (opts' : Options)
      → fields unicode m c opts ≡ some ch
      → (ch' : Row) × (fields unicode m c opts' ≡ some ch')
  unfolding fields
  fields-opts m ch opts' h =
      same_errors
        (any (λ k. is_nil (cleaned m k)) (required_fields (text_eq (rank m) has_endorsed)))
        (is_woman unicode m) (λ woman. by_rank unicode m ++ shared_fields unicode woman m c opts)
        (λ woman. by_rank unicode m ++ shared_fields unicode woman m c opts') ch h

  letter_header-some :
      (m ch : Row) (opts' : Options)
      → fields unicode m c opts ≡ some ch
      → (header : Text) × (letter_header unicode m c opts' ≡ some header)
  unfolding letter_header
  letter_header-some m ch opts' h =
      let (ch', e) = fields-opts m ch opts' h in mapped-some (fields unicode m c opts') _ ch' e

  email-fields :
      (m : Row) (mail : Email)
      → email unicode templates m c opts ≡ done mail
      → (ch : Row) × (fields unicode m c opts ≡ some ch)
  unfolding email compose
  email-fields m mail h =
      let (text, e) = of_text-done (compose unicode templates m c opts (codes "email")) mail h in
      let (ch, f, _) =
        of_fields-done templates (template_name (codes "email") m) (fields unicode m c opts) text
          e in
      (ch, f)

  draft-fields :
      (m : Row) (d : Draft)
      → draft unicode templates c opts m ≡ done d
      → (ch : Row) × (fields unicode m c opts ≡ some ch)
  unfolding draft
  draft-fields m d h = go (email unicode templates m c opts) refl h
    where
      go :
          (a : Attempt Email)
          → email unicode templates m c opts ≡ a
          → of_email unicode templates c opts m a ≡ done d
          → (ch : Row) × (fields unicode m c opts ≡ some ch)
      go (done mail) e h = email-fields m mail e
      go missing_field e h = cc
      go invalid_template e h = cc

  print-some :
      (m ch : Row) (d : Draft) (valid : List Text) (bad : Option Text) (x : Mailing)
      → fields unicode m c opts ≡ some ch
      → (y : Mailing) × (print unicode templates c opts m d valid bad x ≡ some y)
  unfolding print
  print-some m ch d valid none x f =
      let quiet : Options = record opts { phone_outreach = false } in
      let (header, e) = letter_header-some m ch quiet f in
      mapped-some (letter_header unicode m c quiet) _ header e
  print-some m ch d [] (some reason) x f = (x, refl)
  print-some m ch d (a ∷ others) (some reason) x f =
      (put_aside m (codes "courrier") (some reason) x, refl)

  -- A round stops the mailing exactly if a template of the mayor's is invalid.
  send-some :
      (m : Row) (x : Mailing) (a : Attempt Draft)
      → draft unicode templates c opts m ≡ a
      → ((y : Mailing) × (send unicode templates c opts m a x ≡ some y)) ⊎ (a ≡ invalid_template)
  unfolding send
  send-some m x (done d) e =
      let (ch, f) = draft-fields m d e in
      let found = email_addresses m in
      let bad = incomplete_address m in
      inl (
        print-some m ch d found.valid bad
          (report_rejected m found.rejected (reach m d.mail found.valid bad x)) f)
  send-some m x missing_field e = inl (put_aside m (codes "email+courrier") none x, refl)
  send-some m x invalid_template e = inr refl

  abbrev pub IsInvalid : Row → Type 0
  IsInvalid m = draft unicode templates c opts m ≡ invalid_template

  stopped :
      (mayors : List Row) (x : Mailing)
      → Exists IsInvalid mayors
      → send_all unicode templates c opts mayors x ≡ none
  unfolding send_all send
  stopped [] x h = elim h [ ]
  stopped (m ∷ mayors) x (inl e) = rw e refl
  stopped (m ∷ mayors) x (inr h) =
      elim (Option-cases (send unicode templates c opts m (draft unicode templates c opts m) x)) [
        | inl e ↦ rw e refl
        | inr (y, e) ↦ rw e (stopped mayors y h)
      ]

  found-IsInvalid :
      (mayors : List Row) (x : Mailing)
      → send_all unicode templates c opts mayors x ≡ none
      → Exists IsInvalid mayors
  unfolding send_all
  found-IsInvalid [] x h = absurd (none-ne-some x (sym h))
  found-IsInvalid (m ∷ mayors) x h = elim (send-some m x (draft unicode templates c opts m) refl) [
    | inl (y, e) ↦ inr (
        found-IsInvalid mayors y
          (subst (λ o. (o >>= send_all unicode templates c opts mayors) ≡ none) e h))
    | inr e ↦ inl e
  ]

  -- The loop of the mailing stops with an error, before any file is written, exactly if there is a
  -- mayor for whom a template is invalid: a mayor for whom a field is missing never stops it, and
  -- the header of a letter never fails where the letter has been written.
  pub send_all-none :
      (mayors : List Row) (x : Mailing)
      → (send_all unicode templates c opts mayors x ≡ none) ↔ Exists IsInvalid mayors
  send_all-none mayors x = (found-IsInvalid mayors x, stopped mayors x)
