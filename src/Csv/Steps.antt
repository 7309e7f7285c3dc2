-- ===== src/Csv/Steps.antt =====
-- noyau/csv.ts: the rounds of `parseRows` on the text of one cell.
use paraphe.Common.{
  ℕ, Bool, true, false, Option, none, some, List, [], ◌∷◌, ◌++◌, Text, ◌==◌, ◌≡◌, inl, inr, refl,
  ap, arith, append-nil, append_assoc, Bool-cases, Lacks, ◌∙◌,
}
use paraphe.Csv.{quote, cr, lf, Scan, next_is, close_row, fresh_row, step, scan, double_quotes}

abbrev pub next_of : Text → Option ℕ
next_of [] = none
next_of (c ∷ s) = some c

-- A separator that the format can carry.
pub record IsSeparator (separator : ℕ) : Type 0 where
  pub not_quote : separator == quote ≡ false
  pub not_cr : separator == cr ≡ false
  pub not_lf : separator == lf ≡ false

module _ (separator : ℕ) where
  pub scan-step :
      (c : ℕ) (rest : Text) (s s' : Scan)
      → step separator c (next_of rest) s ≡ (s', false)
      → scan separator (c ∷ rest) s ≡ scan separator rest s'
  unfolding scan
  scan-step c [] s s' h = rw h
  scan-step c (d ∷ rest) s s' h = rw h

  pub scan-step_twice :
      (c d : ℕ) (rest : Text) (s s' : Scan)
      → step separator c (some d) s ≡ (s', true)
      → scan separator (c ∷ d ∷ rest) s ≡ scan separator rest s'
  unfolding scan
  scan-step_twice c d rest s s' h = rw h

-- The states met while a written file is read: `rows` are complete, `fields` belong to the row
-- under way, `current` to the field under way.
abbrev pub at : List (List Text) → List Text → Text → Bool → Bool → Scan
at rows fields current in_quotes started = record {
  rows = rows;
  fields = fields;
  current = current;
  in_quotes = in_quotes;
  started = started;
}

module _ (separator : ℕ) (rows : List (List Text)) (fields : List Text) where
  step-close :
      (next : Option ℕ) (current : Text) (started : Bool)
      → next_is next quote ≡ false
      → step separator quote next (at rows fields current true started)
        ≡ (at rows fields current false started, false)
  unfolding step
  step-close next current started h = rw h

  step-inner :
      (c : ℕ) (next : Option ℕ) (current : Text) (started : Bool)
      → c == quote ≡ false
      → step separator c next (at rows fields current true started)
        ≡ (at rows fields (current ++ c ∷ []) true started, false)
  unfolding step
  step-inner c next current started h = rw h

  step-doubled :
      (current : Text) (started : Bool)
      → step separator quote (some quote) (at rows fields current true started)
        ≡ (at rows fields (current ++ quote ∷ []) true started, true)
  unfolding step
  step-doubled current started = refl

  step-plain :
      (c : ℕ) (next : Option ℕ) (current : Text) (started : Bool)
      → c == quote ≡ false
      → c == separator ≡ false
      → c == cr ≡ false
      → c == lf ≡ false
      → step separator c next (at rows fields current false started)
        ≡ (at rows fields (current ++ c ∷ []) false true, false)
  unfolding step
  step-plain c next current started hq hs hc hl = rw (hq, hs, hc, hl)

  pub step-open :
      (next : Option ℕ) (started : Bool)
      → step separator quote next (at rows fields [] false started)
        ≡ (at rows fields [] true true, false)
  unfolding step
  step-open next started = refl

  pub step-separator :
      (next : Option ℕ) (current : Text) (started : Bool)
      → separator == quote ≡ false
      → step separator separator next (at rows fields current false started)
        ≡ (at rows (fields ++ current ∷ []) [] false true, false)
  unfolding step
  step-separator next current started h = ground arith

  pub step-line_end :
      (current : Text) (started : Bool)
      → separator == cr ≡ false
      → step separator cr (some lf) (at rows fields current false started)
        ≡ (fresh_row (close_row (at rows fields current false started)), true)
  unfolding step
  step-line_end current started h = ground arith

  -- Inside quotes, a text with its quotes doubled is read up to the closing quote.
  pub scan-double_quotes :
      (s current rest : Text)
      → next_is (next_of rest) quote ≡ false
      → scan separator (double_quotes s ++ quote ∷ rest) (at rows fields current true true)
        ≡ scan separator rest (at rows fields (current ++ s) false true)
  unfolding double_quotes
  scan-double_quotes [] current rest h =
      rw append-nil (scan-step separator quote rest _ _ (step-close (next_of rest) current true h))
  scan-double_quotes (c ∷ s) current rest h = elim (Bool-cases (c == quote)) [
    | inl e ↦
        let same : c ≡ quote = ground arith in
        rw same (
          scan-step_twice separator quote quote _ _ _ (step-doubled current true)
          ∙ (scan-double_quotes s (current ++ quote ∷ []) rest h
              ∙ ap (λ t. scan separator rest (at rows fields t false true))
                  (append_assoc current (quote ∷ []) s)))
    | inr e ↦ rw e (
        scan-step separator c _ _ _ (step-inner c _ current true e)
        ∙ (scan-double_quotes s (current ++ c ∷ []) rest h
            ∙ ap (λ t. scan separator rest (at rows fields t false true))
                (append_assoc current (c ∷ []) s)))
  ]

  -- A text with no special character is read as it stands.
  pub scan-plain :
      (s current rest : Text)
      → Lacks quote s
      → Lacks separator s
      → Lacks cr s
      → Lacks lf s
      → (started : Bool)
      → (b : Bool) × (scan separator (s ++ rest) (at rows fields current false started)
          ≡ scan separator rest (at rows fields (current ++ s) false b))
  scan-plain [] current rest _ _ _ _ started = (started, rw append-nil)
  scan-plain (c ∷ s) current rest (hq, hqs) (hs, hss) (hc, hcs) (hl, hls) started =
      let (b, ih) = scan-plain s (current ++ c ∷ []) rest hqs hss hcs hls true in
      (
        b,
        scan-step separator c (s ++ rest) _ _ (step-plain c _ current started hq hs hc hl)
            ∙ (ih
                ∙ ap (λ t. scan separator rest (at rows fields t false b))
                    (append_assoc current (c ∷ []) s)),
      )
