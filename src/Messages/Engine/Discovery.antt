-- ===== src/Messages/Engine/Discovery.antt =====
-- noyau/messages.ts: what a message to a mayor who has endorsed nobody cannot say.
use paraphe.Common.{
  Bool, false, [], ◌∷◌, Option, none, some, ◌++◌, Text, codes, text_eq, text_eq_iff, ◌≡◌, ◌≢◌, refl,
  ap, sym, ◌∙◌, subst, any, Bool-cases, inl, inr, bind-some, passed-some,
}
use mathlib.Core.Option.{some-injective, none-ne-some}
use paraphe.Csv.{Row, field, lf}
use paraphe.Texte.Controls.{trim, is_nil}
use paraphe.Messages.Render.{render, read_pieces, substitute, tidy}
use paraphe.Messages.Render.Printed.{printed, printed-tidy, tidy-line}
use paraphe.Messages.Render.Pieces.{IsKey, braced, render-braced}
use paraphe.Texte.Unicode.{Unicode}
use paraphe.Messages.Rank.{has_endorsed, rank, is_woman, cleaned}
use paraphe.Messages.Fields.{Options, by_rank, shared_fields, fields, required_fields}
use paraphe.Messages.Engine.{
  Attempt, done, missing_field, invalid_template, Email, template_name, compose, letter,
  phone_script, email, of_render, of_fields, of_text,
}
use paraphe.Messages.Engine.Subject.{of_text-split, printed_mail, split_subject-printed}

-- The placeholders that speak of an endorsement of the mayor's own.
pub data IsThanks : Text → Type 0 where
  candidate : IsThanks (codes "candidat_recent")
  year : IsThanks (codes "annee_recente")
  endorsements : IsThanks (codes "parrainages")

-- What is printed comes from the template of the channel for mayors without an endorsement, filled
-- with the fields of the mayor, up to white space and dashes. That template thanks for none.
pub IsDiscovery : Unicode → Row → Row → Row → Options → Text → Text → Type 0
IsDiscovery unicode templates mayor cfg opts base shown =
    (template : Text) × (ch : Row) × (filled : Text) × (field templates
        (base ++ codes "_decouverte.txt")
      ≡ some template)
    × (fields unicode mayor cfg opts ≡ some ch)
    × (substitute ch (read_pieces none template) ≡ some filled)
    × (shown ≡ printed filled)
    × ((pre raw post : Text)
        → IsKey raw
        → template ≡ pre ++ braced raw post
        → ¬ IsThanks (trim raw))

module _ (unicode : Unicode) (mayor cfg : Row) (opts : Options) (woman : Bool)
    (h : text_eq (rank mayor) has_endorsed ≡ false) where
  -- The fields of such a mayor have no such placeholder.
  field-thanks :
      (key : Text)
      → IsThanks key
      → field (by_rank unicode mayor ++ shared_fields unicode woman mayor cfg opts) key ≡ none
  unfolding by_rank shared_fields field text_eq
  field-thanks _ candidate = rw h refl
  field-thanks _ year = rw h refl
  field-thanks _ endorsements = rw h refl

template_name-unknown :
    (base : Text) (mayor : Row)
    → text_eq (rank mayor) has_endorsed ≡ false
    → template_name base mayor ≡ base ++ codes "_decouverte.txt"
unfolding template_name
template_name-unknown base mayor h = rw h refl

of_render-done : (o : Option Text) (text : Text) → of_render o ≡ done text → o ≡ some text
unfolding of_render
of_render-done none text h = cc
of_render-done (some t) text h = cc

pub of_fields-done :
    (templates : Row) (name : Text) (o : Option Row) (text : Text)
    → of_fields templates name o ≡ done text
    → (ch : Row) × (o ≡ some ch) × (render templates name ch ≡ some text)
unfolding of_fields
of_fields-done templates name none text h = cc
of_fields-done templates name (some ch) text h =
    (ch, refl, of_render-done (render templates name ch) text h)

pub of_text-done :
    (a : Attempt Text) (mail : Email) → of_text a ≡ done mail → (text : Text) × (a ≡ done text)
unfolding of_text
of_text-done (done text) mail h = (text, refl)
of_text-done missing_field mail h = cc
of_text-done invalid_template mail h = cc

module _ (unicode : Unicode) (mayor cfg : Row) (opts : Options) where
  -- What the fields of a message are.
  pub fields-some :
      (ch : Row)
      → fields unicode mayor cfg opts ≡ some ch
      → (woman : Bool) × (ch ≡ by_rank unicode mayor ++ shared_fields unicode woman mayor cfg opts)
  unfolding fields
  fields-some ch h =
      let empty =
        any (λ k. is_nil (cleaned mayor k)) (required_fields (text_eq (rank mayor) has_endorsed)) in
      let (woman, _, e) = bind-some (is_woman unicode mayor) _ ch (passed-some empty _ ch h) in
      (woman, sym (some-injective _ ch e))

module _ (unicode : Unicode) (templates mayor cfg : Row) (opts : Options) where
  compose-IsDiscovery :
      (base text : Text)
      → rank mayor ≢ has_endorsed
      → compose unicode templates mayor cfg opts base ≡ done text
      → IsDiscovery unicode templates mayor cfg opts base (printed text)
  unfolding compose render IsDiscovery
  compose-IsDiscovery base text ne h =
      let name : Text = template_name base mayor in
      let (ch, f, r) = of_fields-done templates name (fields unicode mayor cfg opts) text h in
      let (woman, same) = fields-some unicode mayor cfg opts ch f in
      let (template, present, r') = bind-some (field templates name) _ text r in
      let (filled, sub, r'') = bind-some (substitute ch (read_pieces none template)) _ text r' in
      let unknown : text_eq (rank mayor) has_endorsed ≡ false =
        elim (Bool-cases (text_eq (rank mayor) has_endorsed)) [
          | inl e ↦ absurd (ne ((text_eq_iff (rank mayor) has_endorsed).0 e))
          | inr e ↦ e
        ] in
      (
        template,
        ch,
        filled,
        subst (λ n. field templates n ≡ some template) (template_name-unknown base mayor unknown)
            present,
        f,
        sub,
        ap printed (sym (some-injective (tidy filled) text r'')) ∙ printed-tidy filled,
        λ pre raw post key e thanks.
            let (value, v) =
              render-braced templates ch name pre raw post text key (present ∙ ap some e) r in
            none-ne-some value (
              sym (field-thanks unicode mayor cfg opts woman unknown (trim raw) thanks)
              ∙ (ap (λ c. field c (trim raw)) (sym same) ∙ v)),
      )

  compose-email :
      (text : Text) (mail : Email)
      → compose unicode templates mayor cfg opts (codes "email") ≡ done text
      → email unicode templates mayor cfg opts ≡ done mail
      → printed_mail mail ≡ printed text
  unfolding email compose render
  compose-email text mail e h =
      split_subject-printed text mail (ends_lf text e)
        (sym (of_text-split text) ∙ (ap of_text (sym e) ∙ h))
    where
      ends_lf :
          (text : Text)
          → compose unicode templates mayor cfg opts (codes "email") ≡ done text
          → (s : Text) × (text ≡ s ++ lf ∷ [])
      ends_lf text e =
          let (ch, f, r) = of_fields-done templates _ (fields unicode mayor cfg opts) text e in
          let (template, _, r') = bind-some (field templates _) _ text r in
          let (filled, _, r'') = bind-some (substitute ch (read_pieces none template)) _ text r' in
          let (s, line) = tidy-line filled in
          (s, sym (some-injective (tidy filled) text r'') ∙ line)

  -- For a mayor whose rank is not `has_endorsed`: what a letter, a telephone script or an email says,
  -- white space and dashes apart, is the template of the channel for such mayors, with its
  -- placeholders replaced by the fields of the mayor; and no placeholder of that template, wherever
  -- it stands, is `candidat_recent`, `annee_recente` or `parrainages`. Of an email this is its
  -- subject, behind `OBJET:`, and its body.
  pub message-IsDiscovery :
      rank mayor ≢ has_endorsed
      → ((text : Text)
          → letter unicode templates mayor cfg opts ≡ done text
          → IsDiscovery unicode templates mayor cfg opts (codes "courrier") (printed text))
        × ((text : Text)
            → phone_script unicode templates mayor cfg opts ≡ done text
            → IsDiscovery unicode templates mayor cfg opts (codes "telephone") (printed text))
        × ((mail : Email)
            → email unicode templates mayor cfg opts ≡ done mail
            → IsDiscovery unicode templates mayor cfg opts (codes "email") (printed_mail mail))
  unfolding letter phone_script
  message-IsDiscovery ne = (
    λ text h. compose-IsDiscovery (codes "courrier") text ne h,
    λ text h. compose-IsDiscovery (codes "telephone") text ne h,
    λ mail h.
        let (text, e) =
          of_text-done (compose unicode templates mayor cfg opts (codes "email")) mail
            (unfold email in h) in
        subst (IsDiscovery unicode templates mayor cfg opts (codes "email"))
          (sym (compose-email text mail e h)) (compose-IsDiscovery (codes "email") text ne e),
  )
