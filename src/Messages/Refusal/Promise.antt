-- ===== src/Messages/Refusal/Promise.antt =====
-- noyau/messages.ts: what `invalidTemplate` promises of the messages that are sent.
use paraphe.Common.{
  Bool, true, false, ◌||◌, Option, none, some, List, [], ◌∷◌, ◌++◌, Text, codes, text_eq, any,
  bind-some, Bool-cases, ◌≡◌, refl, sym, ap, ◌∙◌, subst, inl, inr, arith,
}
use paraphe.Csv.{Row, field}
use paraphe.Texte.Controls.{
  trim, is_nil, strip_controls, trim_end, trim_start, squeeze, decode_all, is_space, decode,
  is_control,
}
use paraphe.Texte.Difflib.{find}
use paraphe.Texte.Norm.{strip_dot}
use paraphe.Texte.Unicode.{Unicode}
use paraphe.Messages.Rank.{has_endorsed, no_signal, rank, is_woman, cleaned}
use paraphe.Messages.Render.{Piece, verbatim, placeholder, read_pieces, substitute, tidy, render}
use paraphe.Messages.Fields.{Today, Options, by_rank, shared_fields, required_fields, fields}
use paraphe.Messages.Engine.{
  Attempt, done, missing_field, invalid_template, template_name, compose, of_render, of_fields,
  of_text, letter, phone_script, email,
}
use paraphe.Messages.Engine.Discovery.{fields-some}
use paraphe.Messages.Refusal.{
  keys, no_options, is_invalid, sample_mayor, sample_campaign, refused_at, is_refused,
}

abbrev is_known : Option Text → Bool
is_known none = false
is_known (some v) = true

-- Whether there is a value depends on the names alone.
is_known-field : (ch : Row) (k : Text) → is_known (field ch k) ≡ any (λ n. text_eq n k) (keys ch)
unfolding field
is_known-field [] k = refl
is_known-field ((n, v) ∷ ch) k = elim (Bool-cases (text_eq n k)) [
  | inl e ↦ rw e refl
  | inr e ↦ rw e (is_known-field ch k)
]

field-known :
    (ch ch' : Row) (k v : Text)
    → keys ch ≡ keys ch'
    → field ch k ≡ some v
    → (v' : Text) × (field ch' k ≡ some v')
field-known ch ch' k v same h = of_known (field ch' k) (
    is_known-field ch' k
    ∙ sym (ap (any (λ n. text_eq n k)) same)
    ∙ sym (is_known-field ch k)
    ∙ ap is_known h)
  where
    of_known : (o : Option Text) → is_known o ≡ true → (v' : Text) × (o ≡ some v')
    of_known none e = absurd (ground arith)
    of_known (some w) e = (w, refl)

substitute-known :
    (ch ch' : Row) (ps : List Piece) (text : Text)
    → keys ch ≡ keys ch'
    → substitute ch ps ≡ some text
    → (text' : Text) × (substitute ch' ps ≡ some text')
unfolding substitute
substitute-known ch ch' [] text same h = ([], refl)
substitute-known ch ch' (verbatim c ∷ ps) text same h =
    let (t, e, _) = bind-some (substitute ch ps) _ text h in
    let (t', e') = substitute-known ch ch' ps t same e in (c ∷ t', rw e' refl)
substitute-known ch ch' (placeholder raw ∷ ps) text same h =
    let (v, f, k) = bind-some (field ch (trim raw)) _ text h in
    let (t, e, _) = bind-some (substitute ch ps) _ text k in
    let (v', f') = field-known ch ch' (trim raw) v same f in
    let (t', e') = substitute-known ch ch' ps t same e in (v' ++ t', rw (f', e') refl)

-- A template that can be filled for one mayor can be filled for all whose fields have the same names.
render-known :
    (templates ch ch' : Row) (name text : Text)
    → keys ch ≡ keys ch'
    → render templates name ch ≡ some text
    → (text' : Text) × (render templates name ch' ≡ some text')
unfolding render
render-known templates ch ch' name text same h =
    let (template, f, k) = bind-some (field templates name) _ text h in
    let (t, e, _) = bind-some (substitute ch (read_pieces none template)) _ text k in
    let (t', e') = substitute-known ch ch' (read_pieces none template) t same e in
    (tidy t', rw (f, e') refl)

-- The names of the fields depend on the rank alone.
keys_of :
    (unicode : Unicode) (mayor mayor' cfg cfg' : Row) (opts opts' : Options) (woman woman' : Bool)
    → text_eq (rank mayor) has_endorsed ≡ text_eq (rank mayor') has_endorsed
    → keys (by_rank unicode mayor ++ shared_fields unicode woman mayor cfg opts)
      ≡ keys (by_rank unicode mayor' ++ shared_fields unicode woman' mayor' cfg' opts')
unfolding by_rank shared_fields
keys_of unicode mayor mayor' cfg cfg' opts opts' woman woman' p =
    elim (Bool-cases (text_eq (rank mayor') has_endorsed)) [
      | inl e ↦ rw (p, e) refl
      | inr e ↦ rw (p, e) refl
    ]

keys-fields :
    (unicode : Unicode) (mayor mayor' cfg cfg' : Row) (opts opts' : Options) (ch ch' : Row)
    → text_eq (rank mayor) has_endorsed ≡ text_eq (rank mayor') has_endorsed
    → fields unicode mayor cfg opts ≡ some ch
    → fields unicode mayor' cfg' opts' ≡ some ch'
    → keys ch ≡ keys ch'
keys-fields unicode mayor mayor' cfg cfg' opts opts' ch ch' p h h' =
    let (woman, e) = fields-some unicode mayor cfg opts ch h in
    let (woman', e') = fields-some unicode mayor' cfg' opts' ch' h' in
    ap keys e ∙ keys_of unicode mayor mayor' cfg cfg' opts opts' woman woman' p ∙ sym (ap keys e')

of_render-some :
    (o : Option Text) → is_invalid (of_render o) ≡ false → (text : Text) × (o ≡ some text)
unfolding of_render
of_render-some none h = absurd (ground arith)
of_render-some (some text) h = (text, refl)

-- A template that is filled for a mayor whose fields are there is no error for another.
of_fields-known :
    (templates : Row) (name : Text) (ch : Row) (o : Option Row)
    → ((ch' : Row) → o ≡ some ch' → keys ch ≡ keys ch')
    → is_invalid (of_fields templates name (some ch)) ≡ false
    → is_invalid (of_fields templates name o) ≡ false
unfolding of_fields of_render
of_fields-known templates name ch none same h = refl
of_fields-known templates name ch (some ch') same h =
    let (text, e) = of_render-some (render templates name ch) h in
    let (text', e') = render-known templates ch ch' name text (same ch' refl) e in rw e' refl

template_name-rank :
    (base : Text) (mayor mayor' : Row)
    → text_eq (rank mayor) has_endorsed ≡ text_eq (rank mayor') has_endorsed
    → template_name base mayor ≡ template_name base mayor'
unfolding template_name
template_name-rank base mayor mayor' p = rw p refl

of_text-invalid : (a : Attempt Text) → is_invalid (of_text a) ≡ false → is_invalid a ≡ false
unfolding of_text
of_text-invalid (done text) h = refl
of_text-invalid missing_field h = refl
of_text-invalid invalid_template h = h

-- `clean` on the texts of the sample.
clean_title : strip_controls (some (codes "Mme")) ≡ codes "Mme"
unfolding strip_controls trim trim_end trim_start squeeze decode_all is_space decode find is_control
clean_title = refl

clean_first : strip_controls (some (codes "Prénom")) ≡ codes "Prénom"
unfolding strip_controls trim trim_end trim_start squeeze decode_all is_space decode find is_control
clean_first = refl

clean_last : strip_controls (some (codes "NOM")) ≡ codes "NOM"
unfolding strip_controls trim trim_end trim_start squeeze decode_all is_space decode find is_control
clean_last = refl

clean_commune : strip_controls (some (codes "Commune")) ≡ codes "Commune"
unfolding strip_controls trim trim_end trim_start squeeze decode_all is_space decode find is_control
clean_commune = refl

clean_candidate : strip_controls (some (codes "Candidat")) ≡ codes "Candidat"
unfolding strip_controls trim trim_end trim_start squeeze decode_all is_space decode find is_control
clean_candidate = refl

clean_year : strip_controls (some (codes "2022")) ≡ codes "2022"
unfolding strip_controls trim trim_end trim_start squeeze decode_all is_space decode find is_control
clean_year = refl

-- The ranks of the sample.
pub sample-endorser : text_eq (rank (sample_mayor has_endorsed)) has_endorsed ≡ true
unfolding strip_controls trim trim_end trim_start squeeze decode_all is_space decode find is_control
    sample_mayor field text_eq rank
sample-endorser = refl

pub sample-unknown : text_eq (rank (sample_mayor no_signal)) has_endorsed ≡ false
unfolding strip_controls trim trim_end trim_start squeeze decode_all is_space decode find is_control
    sample_mayor field text_eq rank
sample-unknown = refl

module _ (unicode : Unicode) (today : Today)
    (upper : unicode.to_upper (codes "Mme") ≡ codes "MME") where
  sample-is_woman : (r : Text) → is_woman unicode (sample_mayor r) ≡ some true
  unfolding is_woman sample_mayor field text_eq strip_dot
  sample-is_woman r = rw (clean_title, upper) refl

  sample-required :
      (r : Text)
      → any
          (λ k. is_nil (cleaned (sample_mayor r) k))
          (required_fields (text_eq (rank (sample_mayor r)) has_endorsed))
        ≡ false
  unfolding sample_mayor field text_eq
  sample-required r = elim (Bool-cases (text_eq (rank (sample_mayor r)) has_endorsed)) [
    | inl e ↦ rw (e, clean_first, clean_last, clean_commune, clean_candidate, clean_year) refl
    | inr e ↦ rw (e, clean_first, clean_last, clean_commune) refl
  ]

  -- All fields of the mayor who does not exist are there.
  pub sample-fields :
      (r : Text)
      → fields unicode (sample_mayor r) sample_campaign (no_options today)
        ≡ some (
            by_rank unicode (sample_mayor r)
            ++ shared_fields unicode true (sample_mayor r) sample_campaign (no_options today))
  unfolding fields
  sample-fields r = rw (sample-is_woman r, sample-required r) refl

  -- A template that the sample at a rank accepts, a mayor of this rank accepts.
  compose-known :
      (templates : Row) (base r : Text) (mayor cfg : Row) (opts : Options)
      → text_eq (rank mayor) has_endorsed ≡ text_eq (rank (sample_mayor r)) has_endorsed
      → is_invalid
          (compose unicode templates (sample_mayor r) sample_campaign (no_options today) base)
        ≡ false
      → is_invalid (compose unicode templates mayor cfg opts base) ≡ false
  unfolding compose
  compose-known templates base r mayor cfg opts p h =
      let name : Text = template_name base (sample_mayor r) in
      let ch : Row =
        by_rank unicode (sample_mayor r)
        ++ shared_fields unicode true (sample_mayor r) sample_campaign (no_options today) in
      subst (λ n. is_invalid (of_fields templates n (fields unicode mayor cfg opts)) ≡ false)
        (sym (template_name-rank base mayor (sample_mayor r) p))
        (of_fields-known templates name ch (fields unicode mayor cfg opts)
          (λ ch' f.
            keys-fields unicode (sample_mayor r) mayor sample_campaign cfg (no_options today) opts
              ch ch' (sym p) (sample-fields r) f)
          (subst (λ o. is_invalid (of_fields templates name o) ≡ false) (sample-fields r) h))

  -- What the answer at one rank says of the mayors of this rank.
  refused_at-known :
      (templates : Row) (r : Text) (mayor cfg : Row) (opts : Options)
      → text_eq (rank mayor) has_endorsed ≡ text_eq (rank (sample_mayor r)) has_endorsed
      → refused_at unicode today templates r ≡ false
      → (is_invalid (letter unicode templates mayor cfg opts) ≡ false)
        × (is_invalid (phone_script unicode templates mayor cfg opts) ≡ false)
        × (is_invalid (compose unicode templates mayor cfg opts (codes "email")) ≡ false)
  unfolding refused_at letter phone_script email
  refused_at-known templates r mayor cfg opts p h =
      let of_sample : Text → Attempt Text =
        compose unicode templates (sample_mayor r) sample_campaign (no_options today) in
      let (e, l, t) =
        none_of (is_invalid (of_text (of_sample (codes "email"))))
          (is_invalid (of_sample (codes "courrier"))) (is_invalid (of_sample (codes "telephone")))
          h in
      (
        compose-known templates (codes "courrier") r mayor cfg opts p l,
        compose-known templates (codes "telephone") r mayor cfg opts p t,
        compose-known templates (codes "email") r mayor cfg opts p
            (of_text-invalid (of_sample (codes "email")) e),
      )
    where
      none_of : (a b c : Bool) → (a || b || c) ≡ false → (a ≡ false) × (b ≡ false) × (c ≡ false)
      none_of a b c h = (ground arith, ground arith, ground arith)

  -- When `invalidTemplate` refuses nothing, no message to any mayor of any campaign meets an
  -- unknown placeholder or a missing template: the letter and the telephone script are never an
  -- `InvalidTemplate`, and neither is the text of the email, before its subject is split off. The
  -- upper case of `Mme` is `MME`.
  pub is_refused-known :
      (templates mayor cfg : Row) (opts : Options)
      → is_refused unicode today templates ≡ false
      → (is_invalid (letter unicode templates mayor cfg opts) ≡ false)
        × (is_invalid (phone_script unicode templates mayor cfg opts) ≡ false)
        × (is_invalid (compose unicode templates mayor cfg opts (codes "email")) ≡ false)
  unfolding is_refused
  is_refused-known templates mayor cfg opts h =
      elim (Bool-cases (text_eq (rank mayor) has_endorsed)) [
        | inl e ↦
            refused_at-known templates has_endorsed mayor cfg opts (e ∙ sym sample-endorser)
              (ground arith)
        | inr e ↦
            refused_at-known templates no_signal mayor cfg opts (e ∙ sym sample-unknown)
              (ground arith)
      ]
