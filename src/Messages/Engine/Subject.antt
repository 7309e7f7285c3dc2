-- ===== src/Messages/Engine/Subject.antt =====
-- noyau/messages.ts: the subject and the body of an email, cut off the text that was rendered.
use paraphe.Common.{
  ℕ, if◌then◌else◌, append_assoc, Bool, true, false, ◌&&◌, ◌==◌, [], ◌∷◌, arith, starts_with, drop,
  Option, none, some, ◌++◌, Text, codes, ◌≡◌, refl, ap, sym, ◌∙◌, subst, Bool-cases, inl, inr,
}
use paraphe.Csv.{lf}
use paraphe.Texte.Controls.{trim}
use paraphe.Messages.Words.{cut_at}
use paraphe.Messages.Render.Printed.{
  printed, printed-append, printed-trim, printed-lf, printed-line, starts_with-drop,
}
use paraphe.Messages.Engine.{
  Attempt, done, invalid_template, Email, of_text, split_subject, first_line,
}

pub of_text-split : (text : Text) → of_text (done text) ≡ split_subject text
unfolding of_text
of_text-split text = refl

-- A line is cut off where the text has a line feed.
cut_by : Bool → Option (Text × Text) → ℕ → Text → Option (Text × Text)
cut_by b o c t = elim b [
  | true ↦ some ([], t)
  | false ↦ elim o [ none ↦ none | some (x, y) ↦ some (c ∷ x, y) ]
]

cut_by-line :
    (b : Bool) (o : Option (Text × Text)) (c : ℕ) (t : Text)
    → (b ≡ true → c ≡ lf)
    → (x : Text) × (y : Text) × (o ≡ some (x, y)) × (t ≡ x ++ lf ∷ y)
    → (x : Text) × (y : Text) × (cut_by b o c t ≡ some (x, y)) × (c ∷ t ≡ x ++ lf ∷ y)
unfolding cut_by
cut_by-line true o c t f _ = ([], t, refl, ap (λ d. d ∷ t) (f refl))
cut_by-line false o c t f (x, y, e, s) = (c ∷ x, y, rw e refl, ap (λ r. c ∷ r) s)

cut_at-line :
    (s : Text)
    → (x : Text) × (y : Text) × (cut_at (s ++ lf ∷ []) (lf ∷ []) ≡ some (x, y))
      × (s ++ lf ∷ [] ≡ x ++ lf ∷ y)
unfolding cut_at starts_with cut_by
cut_at-line [] = ([], [], refl, refl)
cut_at-line (c ∷ s) =
    cut_by-line (c == lf && true) (cut_at (s ++ lf ∷ []) (lf ∷ [])) c (s ++ lf ∷ [])
      (λ e. ground arith) (cut_at-line s)

done_injective : (m mail : Email) → ◌≡◌ {A = Attempt Email} (done m) (done mail) → m ≡ mail
done_injective m mail h = cc

done_of :
    (b : Bool) (m mail : Email)
    → b ≡ true
    → (if b then done m else invalid_template) ≡ done mail
    → m ≡ mail
done_of true m mail _ h = done_injective m mail h
done_of false m mail e h = cc

not_done :
    (b : Bool) (m mail : Email)
    → b ≡ false
    → ¬ ((if b then done m else invalid_template) ≡ done mail)
not_done true m mail e h = cc
not_done false m mail _ h = cc

-- `split_subject` on the first line and the rest.
abbrev subject_of : Text × Text → Attempt Email
subject_of (first, rest) =
    if starts_with first (codes "OBJET:")
    then done (record { subject = trim (drop 6 first); body = trim rest ++ lf ∷ [] })
    else invalid_template

split_subject-first : (text : Text) → split_subject text ≡ subject_of (first_line text)
unfolding split_subject
split_subject-first text = refl

first_line-cut : (text x y : Text) → cut_at text (lf ∷ []) ≡ some (x, y) → first_line text ≡ (x, y)
unfolding first_line
first_line-cut text x y e = rw (first_line, e) refl

-- What is printed of an email: its mark, its subject and its body.
abbrev pub printed_mail : Email → Text
printed_mail mail = printed (codes "OBJET:") ++ (printed mail.subject ++ printed mail.body)

printed-subject_of :
    (x y : Text) (mail : Email)
    → subject_of (x, y) ≡ done mail
    → printed_mail mail ≡ printed x ++ printed y
printed-subject_of x y mail h = elim (Bool-cases (starts_with x (codes "OBJET:"))) [
  | inl e ↦
      let made : Email = record { subject = trim (drop 6 x); body = trim y ++ lf ∷ [] } in
      let same : made ≡ mail = done_of (starts_with x (codes "OBJET:")) made mail e h in
      subst (λ (m : Email). printed_mail m ≡ printed x ++ printed y) same
        (ap (λ r. printed (codes "OBJET:") ++ (r ++ printed (trim y ++ lf ∷ [])))
            (printed-trim (drop 6 x))
          ∙ (ap (λ r. printed (codes "OBJET:") ++ (printed (drop 6 x) ++ r)) (printed-line y)
              ∙ (sym (append_assoc (printed (codes "OBJET:")) (printed (drop 6 x)) (printed y))
                  ∙ ap (λ r. r ++ printed y)
                      (sym (
                        ap printed (starts_with-drop x (codes "OBJET:") e)
                        ∙ printed-append (codes "OBJET:") (drop 6 x))))))
  | inr e ↦ absurd (not_done (starts_with x (codes "OBJET:")) _ mail e h)
]

pub split_subject-printed :
    (text : Text) (mail : Email)
    → (s : Text) × (text ≡ s ++ lf ∷ [])
    → split_subject text ≡ done mail
    → printed_mail mail ≡ printed text
split_subject-printed text mail (s, e) h =
    let (x, y, cut, joined) = cut_at-line s in
    let first : first_line text ≡ (x, y) =
      first_line-cut text x y (ap (λ t. cut_at t (lf ∷ [])) e ∙ cut) in
    printed-subject_of x y mail (ap subject_of (sym first) ∙ (sym (split_subject-first text) ∙ h))
    ∙ sym (
        ap printed (e ∙ joined)
        ∙ (printed-append x (lf ∷ y) ∙ ap (λ r. printed x ++ r) (printed-lf y)))
