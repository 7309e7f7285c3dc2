-- ===== src/Messages/Engine.antt =====
-- noyau/messages.ts: `createEngine`, which chooses the template of a message and fills it.
pub mod Subject
pub mod Discovery
use paraphe.Common.{
  ℕ, Bool, true, false, not, Option, none, some, List, [], ◌∷◌, ◌++◌, Text, codes, text_eq,
  if◌then◌else◌, drop, starts_with,
}
use paraphe.Csv.{Row, lf}
use paraphe.Texte.Controls.{trim}
use paraphe.Messages.Render.{render}
use paraphe.Texte.Unicode.{Unicode}
use paraphe.Messages.Words.{cut_at}
use paraphe.Messages.Rank.{has_endorsed, rank}
use paraphe.Messages.Fields.{Options, fields}

-- A result, or one of the two errors.
pub data Attempt (A : Type 0) : Type 0 where
  done : A → Attempt A
  missing_field invalid_template : Attempt A

pub record Email : Type 0 where
  pub subject : Text
  pub body : Text

unfoldable pub template_name : Text → Row → Text
template_name base mayor =
    if text_eq (rank mayor) has_endorsed
    then base ++ codes ".txt"
    else base ++ codes "_decouverte.txt"

abbrev objet : Text
objet = codes "OBJET:"

-- `text.slice(0, -1)`
abbrev drop_last : Text → Text
drop_last [] = []
drop_last (c ∷ []) = []
drop_last (c ∷ d ∷ s) = c ∷ drop_last (d ∷ s)

-- `text.slice(0, brk)` and `text.slice(brk + 1)` for `brk = text.indexOf("\n")`
unfoldable pub first_line : Text → Text × Text
unfolding cut_at starts_with
first_line text = elim (cut_at text (lf ∷ [])) [
  | some (before, after) ↦ (before, after)
  | none ↦ (drop_last text, text)
]

-- The end of `email`, on the text that `render` has returned.
unfoldable pub split_subject : Text → Attempt Email
unfolding first_line starts_with trim
split_subject text =
    let (first, rest) = first_line text in
    if starts_with first objet
    then done (record { subject = trim (drop 6 first); body = trim rest ++ lf ∷ [] })
    else invalid_template

unfoldable pub of_render : Option Text → Attempt Text
of_render none = invalid_template
of_render (some text) = done text

unfoldable pub of_fields : Row → Text → Option Row → Attempt Text
unfolding of_render
of_fields templates name none = missing_field
of_fields templates name (some ch) = of_render (render templates name ch)

unfoldable pub of_text : Attempt Text → Attempt Email
of_text (done text) = split_subject text
of_text missing_field = missing_field
of_text invalid_template = invalid_template

module _ (unicode : Unicode) (templates mayor cfg : Row) (opts : Options) where
  -- `render(templateName(base, mayor), fields(mayor, cfg, opts))`
  unfoldable pub compose : Text → Attempt Text
  compose base = of_fields templates (template_name base mayor) (fields unicode mayor cfg opts)

  unfoldable pub letter : Attempt Text
  letter = compose (codes "courrier")

  unfoldable pub phone_script : Attempt Text
  phone_script = compose (codes "telephone")

  unfoldable pub email : Attempt Email
  email = of_text (compose (codes "email"))
