-- ===== src/Messages/Render/Tidy.antt =====
-- noyau/messages.ts: the layout of the texts that `render` returns.
use paraphe.Common.{
  ℕ, map, none, some, subst, bind-some, true, false, ◌&&◌, [], ◌∷◌, ◌++◌, Text, ◌==◌, ◌≡◌, refl, ap,
  sym, ◌∙◌, arith, Bool-cases, inl, inr, Lacks, ==_iff, ◌≢◌,
}
use mathlib.Core.Option.{some-injective}
use paraphe.Csv.{cr, lf, join, Row, field}
use paraphe.Texte.Controls.{is_space, trim_start, is_nil, trim_end, trim}
use paraphe.Texte.Controls.Clean.{trim_end_fixed, trim_fixed}
use paraphe.Messages.Render.{
  starts_with_char, replace_cr, is_blank, strip_blanks, starts_with_two, collapse_lines, tidy,
  join_parts, replace_crlf, split, render, substitute, read_pieces,
}

-- No carriage return, no blank at the end of a line, no two empty lines in a row.
pub IsTidy : Text → Type 0
IsTidy [] = Unit {0}
IsTidy (c ∷ s) =
    (c == cr ≡ false)
    × (is_blank c && starts_with_char lf s ≡ false)
    × (c == lf && starts_with_two s ≡ false)
    × IsTidy s

-- No blank at the end of a line.
IsStripped : Text → Type 0
IsStripped [] = Unit {0}
IsStripped (c ∷ s) = (is_blank c && starts_with_char lf s ≡ false) × IsStripped s

Lacks-replace_cr : (s : Text) → Lacks cr (replace_cr s)
unfolding replace_cr
Lacks-replace_cr [] = tt
Lacks-replace_cr (c ∷ s) = (ground arith, Lacks-replace_cr s)

Lacks-strip_blanks : (s : Text) → Lacks cr s → Lacks cr (strip_blanks s)
unfolding strip_blanks
Lacks-strip_blanks [] h = tt
Lacks-strip_blanks (c ∷ s) (p, h) =
    elim (Bool-cases (is_blank c && starts_with_char lf (strip_blanks s))) [
      | inl e ↦ rw e (Lacks-strip_blanks s h)
      | inr e ↦ rw e (p, Lacks-strip_blanks s h)
    ]

IsStripped-strip_blanks : (s : Text) → IsStripped (strip_blanks s)
unfolding strip_blanks IsStripped
IsStripped-strip_blanks [] = tt
IsStripped-strip_blanks (c ∷ s) =
    elim (Bool-cases (is_blank c && starts_with_char lf (strip_blanks s))) [
      | inl e ↦ rw e (IsStripped-strip_blanks s)
      | inr e ↦ rw e (e, IsStripped-strip_blanks s)
    ]

starts_with_char_of_two : (s : Text) → starts_with_two s ≡ true → starts_with_char lf s ≡ true
starts_with_char_of_two [] e = e
starts_with_char_of_two (c ∷ s) e = ground arith

starts-collapse_lines : (s : Text) → starts_with_char lf (collapse_lines s) ≡ starts_with_char lf s
unfolding collapse_lines
starts-collapse_lines [] = refl
starts-collapse_lines (c ∷ s) = elim (Bool-cases (c == lf && starts_with_two (collapse_lines s))) [
  | inl e ↦ rw e (ground (arith, starts_with_char_of_two (collapse_lines s)))
  | inr e ↦ rw e refl
]

collapse_lines-IsTidy : (s : Text) → Lacks cr s → IsStripped s → IsTidy (collapse_lines s)
unfolding collapse_lines IsStripped IsTidy
collapse_lines-IsTidy [] p q = tt
collapse_lines-IsTidy (c ∷ s) (p, ps) (q, qs) =
    elim (Bool-cases (c == lf && starts_with_two (collapse_lines s))) [
      | inl e ↦ rw e (collapse_lines-IsTidy s ps qs)
      | inr e ↦ rw e (p, rw (starts-collapse_lines s) q, e, collapse_lines-IsTidy s ps qs)
    ]

trim_start-IsTidy : (s : Text) → IsTidy s → IsTidy (trim_start s)
unfolding trim_start IsTidy
trim_start-IsTidy [] h = tt
trim_start-IsTidy (c ∷ s) (p, q, r, h) = elim (Bool-cases (is_space c)) [
  | inl e ↦ rw e (trim_start-IsTidy s h)
  | inr e ↦ rw e (p, q, r, h)
]

starts_with_char-append :
    (s : Text) → is_nil s ≡ false → starts_with_char lf (s ++ lf ∷ []) ≡ starts_with_char lf s
starts_with_char-append [] h = cc
starts_with_char-append (c ∷ s) h = refl

-- Only a text that is one line end gains a second at its start.
starts_with_two-append :
    (s : Text) → s ≢ lf ∷ [] → is_nil s ≡ false → starts_with_two (s ++ lf ∷ []) ≡ starts_with_two s
starts_with_two-append [] ne h = cc
starts_with_two-append (c ∷ []) ne h = elim (Bool-cases (c == lf)) [
  | inl e ↦ let p : c ≡ lf = (==_iff c lf).0 e in absurd (ne (ap (λ d. d ∷ []) p))
  | inr e ↦ rw e refl
]
starts_with_two-append (c ∷ d ∷ s) ne h = refl

trim_end_ne : (s : Text) → trim_end s ≢ lf ∷ []
unfolding trim_end is_space
trim_end_ne s e =
    let p : [] ≡ trim_end s = ap trim_end (sym e) ∙ trim_end_fixed s in
    let q : [] ≡ lf ∷ [] = p ∙ e in cc

starts_with_char-trim_end :
    (s : Text) → starts_with_char lf s ≡ false → starts_with_char lf (trim_end s) ≡ false
unfolding trim_end
starts_with_char-trim_end [] h = refl
starts_with_char-trim_end (c ∷ s) h = elim (Bool-cases (is_space c && is_nil (trim_end s))) [
  | inl e ↦ rw e refl
  | inr e ↦ rw e h
]

starts_with_two-trim_end :
    (s : Text) → starts_with_two s ≡ false → starts_with_two (trim_end s) ≡ false
unfolding trim_end
starts_with_two-trim_end [] h = refl
starts_with_two-trim_end (c ∷ s) h = elim (Bool-cases (is_space c && is_nil (trim_end s))) [
  | inl e ↦ rw e refl
  | inr e ↦ rw e (ground (arith, h, starts_with_char-trim_end s))
]

-- A character that `trim_end` keeps as the last one is no blank and no line end.
is_blank_of_space : (c : ℕ) → is_space c ≡ false → is_blank c ≡ false
unfolding is_space
is_blank_of_space c h = ground arith

is_line_end_of_space : (c : ℕ) → is_space c ≡ false → c == lf ≡ false
unfolding is_space
is_line_end_of_space c h = ground arith

nil_of_is_nil : (s : Text) → is_nil s ≡ true → s ≡ []
nil_of_is_nil [] e = refl
nil_of_is_nil (c ∷ s) e = cc

module _ (c : ℕ) (s : Text) (e : is_space c && is_nil (trim_end s) ≡ false) where
  last_blank :
      is_blank c && starts_with_char lf s ≡ false
      → is_blank c && starts_with_char lf (trim_end s ++ lf ∷ []) ≡ false
  last_blank h = elim (Bool-cases (is_nil (trim_end s))) [
    | inl n ↦ let b : is_blank c ≡ false = is_blank_of_space c (ground (arith, e, n)) in rw b refl
    | inr n ↦
        rw (starts_with_char-append (trim_end s) n) (ground (arith, h, starts_with_char-trim_end s))
  ]

  last_lines :
      c == lf && starts_with_two s ≡ false
      → c == lf && starts_with_two (trim_end s ++ lf ∷ []) ≡ false
  last_lines h = elim (Bool-cases (is_nil (trim_end s))) [
    | inl n ↦ let b : c == lf ≡ false = is_line_end_of_space c (ground (arith, e, n)) in rw b refl
    | inr n ↦
        rw (starts_with_two-append (trim_end s) (trim_end_ne s) n)
          (ground (arith, h, starts_with_two-trim_end s))
  ]

IsTidy-trim_end : (s : Text) → IsTidy s → IsTidy (trim_end s ++ lf ∷ [])
unfolding trim_end IsTidy
IsTidy-trim_end [] h = (refl, refl, refl, tt)
IsTidy-trim_end (c ∷ s) (p, q, r, h) = elim (Bool-cases (is_space c && is_nil (trim_end s))) [
  | inl e ↦ rw e (refl, refl, refl, tt)
  | inr e ↦ rw e (p, last_blank c s e q, last_lines c s e r, IsTidy-trim_end s h)
]

trimmed-IsTidy : (s : Text) → IsTidy s → IsTidy (trim s ++ lf ∷ [])
unfolding trim
trimmed-IsTidy s h = IsTidy-trim_end (trim_start s) (trim_start-IsTidy s h)

tidy-IsTidy :
    (text : Text)
    → (body : Text) × (tidy text ≡ body ++ lf ∷ []) × (trim body ≡ body) × IsTidy (tidy text)
unfolding tidy
tidy-IsTidy text =
    let joined = join (map join_parts (split text (lf ∷ []))) (lf ∷ []) in
    let stripped = strip_blanks (replace_cr (replace_crlf joined)) in
    (
      trim (collapse_lines stripped),
      refl,
      trim_fixed (collapse_lines stripped),
      trimmed-IsTidy (collapse_lines stripped) (
          collapse_lines-IsTidy stripped
            (Lacks-strip_blanks (replace_cr (replace_crlf joined))
              (Lacks-replace_cr (replace_crlf joined)))
            (IsStripped-strip_blanks (replace_cr (replace_crlf joined)))),
    )

-- Whatever the template and the fields hold, a text that `render` returns is a body without white
-- space at its ends and one line end behind it, and has no carriage return, no blank before a line
-- end and no two empty lines in a row.
pub render-IsTidy :
    (templates ch : Row) (name text : Text)
    → render templates name ch ≡ some text
    → (body : Text) × (text ≡ body ++ lf ∷ []) × (trim body ≡ body) × IsTidy text
unfolding render
render-IsTidy templates ch name text h =
    let (template, _, h') = bind-some (field templates name) _ text h in
    let (filled, _, h'') = bind-some (substitute ch (read_pieces none template)) _ text h' in
    subst (λ t. (body : Text) × (t ≡ body ++ lf ∷ []) × (trim body ≡ body) × IsTidy t)
      (some-injective (tidy filled) text h'') (tidy-IsTidy filled)
