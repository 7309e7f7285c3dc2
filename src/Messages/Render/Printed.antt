-- ===== src/Messages/Render/Printed.antt =====
-- noyau/messages.ts: what `render` leaves of a text whose placeholders are filled.
use paraphe.Common.{
  ℕ, zero, suc, ◌-◌, Bool, true, false, not, ◌&&◌, List, [], ◌∷◌, ◌++◌, map, Text, codes, length,
  keep, drop, ◌==◌, ==_iff, starts_with, includes, append-nil, append_assoc, ◌≡◌, refl, ap, sym,
  ◌∙◌, Bool-cases, inl, inr, arith,
}
use paraphe.Csv.{join, cr, lf}
use paraphe.Texte.Controls.{is_space, trim_start, is_nil, trim_end, trim}
use paraphe.Messages.Render.{
  starts_with_char, replace_cr, is_blank, strip_blanks, starts_with_two, collapse_lines, tidy,
  join_parts, replace_crlf, split, split_from,
}

-- A character that is neither white space nor the dash of `join_parts`.
abbrev pub is_printed : ℕ → Bool
is_printed c = not (is_space c) && not (c == 0x2014)

-- A text without its white space and its dashes.
abbrev pub printed : Text → Text
printed = keep is_printed

pub printed-append : (s t : Text) → printed (s ++ t) ≡ printed s ++ printed t
printed-append [] t = refl
printed-append (c ∷ s) t = elim (Bool-cases (is_printed c)) [
  | inl e ↦ rw (e, keep) (ap (λ r. c ∷ r) (printed-append s t))
  | inr e ↦ rw (e, keep) (printed-append s t)
]

printed_cons : (c : ℕ) (s t : Text) → printed s ≡ printed t → printed (c ∷ s) ≡ printed (c ∷ t)
printed_cons c s t h = elim (Bool-cases (is_printed c)) [
  | inl e ↦ rw (e, keep) (ap (λ r. c ∷ r) h)
  | inr e ↦ rw (e, keep) h
]

printed-hidden : (c : ℕ) (s : Text) → is_space c ≡ true → printed (c ∷ s) ≡ printed s
printed-hidden c s h = let e : is_printed c ≡ false = ground arith in rw (e, keep) refl

space-cr : (c : ℕ) → c == cr ≡ true → is_space c ≡ true
unfolding is_space
space-cr c e = rw ((==_iff c cr).0 e) refl

space-lf : (c : ℕ) → c == lf ≡ true → is_space c ≡ true
unfolding is_space
space-lf c e = rw ((==_iff c lf).0 e) refl

space-blank : (c : ℕ) → is_blank c ≡ true → is_space c ≡ true
unfolding is_space
space-blank c e = ground arith

first_of : (a b : Bool) → (a && b) ≡ true → a ≡ true
first_of a b h = ground arith

printed-trim_start : (s : Text) → printed (trim_start s) ≡ printed s
unfolding trim_start
printed-trim_start [] = refl
printed-trim_start (c ∷ s) = elim (Bool-cases (is_space c)) [
  | inl e ↦ rw (e, trim_start) (printed-trim_start s ∙ sym (printed-hidden c s e))
  | inr e ↦ rw (e, trim_start) refl
]

nil-printed : (s : Text) → is_nil s ≡ true → [] ≡ printed s
nil-printed [] h = refl
nil-printed (c ∷ s) h = cc

printed-trim_end : (s : Text) → printed (trim_end s) ≡ printed s
unfolding trim_end
printed-trim_end [] = refl
printed-trim_end (c ∷ s) = elim (Bool-cases (is_space c && is_nil (trim_end s))) [
  | inl e ↦
      rw (e, trim_end)
        (nil-printed (trim_end s) (ground arith)
          ∙ (printed-trim_end s ∙ sym (printed-hidden c s (first_of (is_space c) _ e))))
  | inr e ↦ rw (e, trim_end) (printed_cons c (trim_end s) s (printed-trim_end s))
]

pub printed-trim : (s : Text) → printed (trim s) ≡ printed s
unfolding trim
printed-trim s = printed-trim_end (trim_start s) ∙ printed-trim_start s

printed-replace_crlf : (s : Text) → printed (replace_crlf s) ≡ printed s
unfolding replace_crlf
printed-replace_crlf [] = refl
printed-replace_crlf (c ∷ s) = elim (Bool-cases (c == cr && starts_with_char lf s)) [
  | inl e ↦
      rw (e, replace_crlf)
        (printed-replace_crlf s ∙ sym (printed-hidden c s (space-cr c (first_of (c == cr) _ e))))
  | inr e ↦ rw (e, replace_crlf) (printed_cons c (replace_crlf s) s (printed-replace_crlf s))
]

printed-replace_cr : (s : Text) → printed (replace_cr s) ≡ printed s
unfolding replace_cr
printed-replace_cr [] = refl
printed-replace_cr (c ∷ s) = elim (Bool-cases (c == cr)) [
  | inl e ↦
      rw (e, replace_cr)
        (printed-hidden lf (replace_cr s) (space-lf lf refl)
          ∙ (printed-replace_cr s ∙ sym (printed-hidden c s (space-cr c e))))
  | inr e ↦ rw (e, replace_cr) (printed_cons c (replace_cr s) s (printed-replace_cr s))
]

printed-strip_blanks : (s : Text) → printed (strip_blanks s) ≡ printed s
unfolding strip_blanks
printed-strip_blanks [] = refl
printed-strip_blanks (c ∷ s) =
    elim (Bool-cases (is_blank c && starts_with_char lf (strip_blanks s))) [
      | inl e ↦
          rw (e, strip_blanks)
            (printed-strip_blanks s
              ∙ sym (printed-hidden c s (space-blank c (first_of (is_blank c) _ e))))
      | inr e ↦ rw (e, strip_blanks) (printed_cons c (strip_blanks s) s (printed-strip_blanks s))
    ]

printed-collapse_lines : (s : Text) → printed (collapse_lines s) ≡ printed s
unfolding collapse_lines
printed-collapse_lines [] = refl
printed-collapse_lines (c ∷ s) = elim (Bool-cases (c == lf && starts_with_two (collapse_lines s))) [
  | inl e ↦
      rw (e, collapse_lines)
        (printed-collapse_lines s ∙ sym (printed-hidden c s (space-lf c (first_of (c == lf) _ e))))
  | inr e ↦ rw (e, collapse_lines) (printed_cons c (collapse_lines s) s (printed-collapse_lines s))
]

-- What is printed of all the parts.
abbrev printed_all : List Text → Text
printed_all [] = []
printed_all (part ∷ parts) = printed part ++ printed_all parts

pub starts_with-drop : (s p : Text) → starts_with s p ≡ true → s ≡ p ++ drop (length p) s
unfolding starts_with
starts_with-drop s [] h = refl
starts_with-drop [] (d ∷ p) h = cc
starts_with-drop (c ∷ s) (d ∷ p) h = ground (arith, starts_with-drop s p, ==_iff c d)

one_less : (s : Text) → suc (length s) - 1 ≡ length s
one_less s = omega arith

module _ (m : ℕ) (ms : Text) (hidden : printed (m ∷ ms) ≡ []) where
  printed-join : (parts : List Text) → printed (join parts (m ∷ ms)) ≡ printed_all parts
  unfolding join
  printed-join [] = refl
  printed-join (part ∷ []) = sym (append-nil (printed part))
  printed-join (part ∷ part' ∷ parts) =
      printed-append part ((m ∷ ms) ++ join (part' ∷ parts) (m ∷ ms))
      ∙ ap (λ r. printed part ++ r)
          (printed-append (m ∷ ms) (join (part' ∷ parts) (m ∷ ms))
            ∙ (ap (λ h. h ++ printed (join (part' ∷ parts) (m ∷ ms))) hidden
                ∙ printed-join (part' ∷ parts)))

  printed-after :
      (c : ℕ) (s : Text)
      → starts_with (c ∷ s) (m ∷ ms) ≡ true
      → printed (drop (length ms) s) ≡ printed (c ∷ s)
  printed-after c s h = sym (
      ap printed (starts_with-drop (c ∷ s) (m ∷ ms) h)
      ∙ (printed-append (m ∷ ms) (drop (length ms) s)
          ∙ ap (λ r. r ++ printed (drop (length ms) s)) hidden))

  printed-split_from :
      (n : ℕ) (part s : Text)
      → printed_all (split_from (m ∷ ms) n part s) ≡ printed part ++ printed (drop n s)
  unfolding split_from
  printed-split_from zero part [] = refl
  printed-split_from (suc n) part [] = refl
  printed-split_from (suc n) part (c ∷ s) = printed-split_from n part s
  printed-split_from zero part (c ∷ s) = elim (Bool-cases (starts_with (c ∷ s) (m ∷ ms))) [
    | inl e ↦
        rw (e, printed_all)
          (ap (λ (k : ℕ). printed part ++ printed_all (split_from (m ∷ ms) k [] s)) (one_less ms)
            ∙ ap (λ r. printed part ++ r)
                (printed-split_from (length ms) [] s ∙ printed-after c s e))
    | inr e ↦
        rw (e, printed_all)
          (printed-split_from 0 (part ++ c ∷ []) s
            ∙ (ap (λ r. r ++ printed s) (printed-append part (c ∷ []))
                ∙ (append_assoc (printed part) (printed (c ∷ [])) (printed s)
                    ∙ ap (λ r. printed part ++ r) (sym (printed-append (c ∷ []) s)))))
  ]

  printed-split : (s : Text) → printed_all (split s (m ∷ ms)) ≡ printed s
  unfolding split
  printed-split s = printed-split_from 0 [] s

blank_part : (part : Text) → is_nil (trim part) ≡ true → [] ≡ printed part
blank_part part h = nil-printed (trim part) h ∙ printed-trim part

printed_all-keep :
    (parts : List Text)
    → printed_all (keep (λ part. not (is_nil (trim part))) parts) ≡ printed_all parts
printed_all-keep [] = refl
printed_all-keep (part ∷ parts) = elim (Bool-cases (is_nil (trim part))) [
  | inl e ↦
      rw (e, keep) (printed_all-keep parts ∙ ap (λ r. r ++ printed_all parts) (blank_part part e))
  | inr e ↦ rw (e, keep) (ap (λ r. printed part ++ r) (printed_all-keep parts))
]

dash-printed : printed (codes " — ") ≡ []
unfolding is_space
dash-printed = refl

printed-join_parts : (line : Text) → printed (join_parts line) ≡ printed line
unfolding join_parts
printed-join_parts line = elim (Bool-cases (includes line (codes " — "))) [
  | inl e ↦
      rw (e, join_parts)
        (printed-join 32 (codes "— ") dash-printed
            (keep (λ part. not (is_nil (trim part))) (split line (codes " — ")))
          ∙ (printed_all-keep (split line (codes " — "))
              ∙ printed-split 32 (codes "— ") dash-printed line))
  | inr e ↦ rw (e, join_parts) refl
]

printed_all-join_parts :
    (lines : List Text) → printed_all (map join_parts lines) ≡ printed_all lines
printed_all-join_parts [] = refl
printed_all-join_parts (line ∷ lines) =
    ap (λ r. r ++ printed_all (map join_parts lines)) (printed-join_parts line)
    ∙ ap (λ r. printed line ++ r) (printed_all-join_parts lines)

lf-printed : printed (lf ∷ []) ≡ []
unfolding is_space
lf-printed = refl

-- `render` changes the white space and the dashes of a text that is filled, and nothing else.
pub printed-tidy : (text : Text) → printed (tidy text) ≡ printed text
unfolding tidy
printed-tidy text =
    let joined : Text = join (map join_parts (split text (lf ∷ []))) (lf ∷ []) in
    let bare : Text = replace_cr (replace_crlf joined) in
    printed-append (trim (collapse_lines (strip_blanks bare))) (lf ∷ [])
    ∙ (ap (λ r. printed (trim (collapse_lines (strip_blanks bare))) ++ r) lf-printed
        ∙ (append-nil (printed (trim (collapse_lines (strip_blanks bare))))
            ∙ (printed-trim (collapse_lines (strip_blanks bare))
                ∙ (printed-collapse_lines (strip_blanks bare)
                    ∙ (printed-strip_blanks bare
                        ∙ (printed-replace_cr (replace_crlf joined)
                            ∙ (printed-replace_crlf joined
                                ∙ (printed-join lf [] lf-printed
                                      (map join_parts (split text (lf ∷ [])))
                                    ∙ (printed_all-join_parts (split text (lf ∷ []))
                                        ∙ printed-split lf [] lf-printed text)))))))))

pub printed-lf : (s : Text) → printed (lf ∷ s) ≡ printed s
printed-lf s = printed-hidden lf s (space-lf lf refl)

pub printed-line : (s : Text) → printed (trim s ++ lf ∷ []) ≡ printed s
printed-line s =
    printed-append (trim s) (lf ∷ [])
    ∙ (ap (λ r. printed (trim s) ++ r) lf-printed
        ∙ (append-nil (printed (trim s)) ∙ printed-trim s))

-- A rendered text ends with a line feed.
pub tidy-line : (text : Text) → (s : Text) × (tidy text ≡ s ++ lf ∷ [])
unfolding tidy
tidy-line text = (_, refl)
