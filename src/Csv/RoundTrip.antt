-- ===== src/Csv/RoundTrip.antt =====
-- noyau/csv.ts: what `parseRows` reads back from the text that `writeCsv` wrote.
use paraphe.Common.{
  ℕ, Bool, true, false, not, ◌||◌, Option, none, some, List, [], ◌∷◌, ◌++◌, map, Text, has_char,
  or_else, ◌≡◌, ◌≢◌, inl, inr, refl, sym, ap, arith, append-nil, append_assoc, Bool-cases,
  Lacks-of_has_char, All, ◌∙◌,
}
use paraphe.Csv.{
  quote, cr, lf, is_empty, next_is, close_row, fresh_row, scan, parse_rows, Row, field,
  double_quotes, escape_field, join, write_row, write_csv,
}
use paraphe.Csv.Steps.{
  next_of, IsSeparator, scan-step, scan-step_twice, at, step-open, step-separator, step-line_end,
  scan-double_quotes, scan-plain,
}

-- The value of a cell once `null` and `undefined` are written as nothing.
abbrev pub cell : Option Text → Text
cell value = or_else value []

abbrev is_special : Text → ℕ → Bool
is_special s separator = has_char separator s || has_char quote s || has_char cr s || has_char lf s

module _ (separator : ℕ) (sep : IsSeparator separator) (rows : List (List Text))
    (fields : List Text) where
  -- A written cell is read up to the delimiter behind it, whether or not it was quoted.
  scan-escape_field :
      (value : Option Text) (rest : Text) (started : Bool)
      → next_is (next_of rest) quote ≡ false
      → (b : Bool) × (scan separator
            (escape_field value separator ++ rest)
            (at rows fields [] false started)
          ≡ scan separator rest (at rows fields (cell value) false b))
  unfolding escape_field
  scan-escape_field value rest started h = elim (Bool-cases (is_special (cell value) separator)) [
    | inl e ↦ (
      true,
      rw e (
          ap (λ t. scan separator (quote ∷ t) (at rows fields [] false started))
            (append_assoc (double_quotes (cell value)) (quote ∷ []) rest)
          ∙ (scan-step separator quote _ _ _ (step-open separator rows fields _ started)
              ∙ scan-double_quotes separator rows fields (cell value) [] rest h)),
    )
    | inr e ↦ rw e (
        scan-plain separator rows fields (cell value) [] rest
          (Lacks-of_has_char quote _ (ground arith)) (Lacks-of_has_char separator _ (ground arith))
          (Lacks-of_has_char cr _ (ground arith)) (Lacks-of_has_char lf _ (ground arith)) started)
  ]

  close_row_of_started :
      (current : Text) (b : Bool)
      → not (is_empty current) || not (is_empty fields) ≡ true
      → close_row (at rows fields current false b) ≡ rows ++ (fields ++ current ∷ []) ∷ []
  unfolding close_row
  close_row_of_started current b h = ground arith

concat-not-empty : (xs : List Text) (x : Text) → is_empty (xs ++ x ∷ []) ≡ false
concat-not-empty [] x = refl
concat-not-empty (y ∷ xs) x = refl

abbrev pub cells : List (Option Text) → List Text
cells = map cell

-- What makes a row leave a trace in the file: it is not one empty cell behind no other.
abbrev shows : List Text → Option Text → List (Option Text) → Bool
shows fields value [] = not (is_empty (cell value)) || not (is_empty fields)
shows fields value (_ ∷ _) = true

shows-concat :
    (fields : List Text) (x : Text) (value : Option Text) (values : List (Option Text))
    → shows (fields ++ x ∷ []) value values ≡ true
shows-concat fields x value [] = ground (arith, concat-not-empty fields x)
shows-concat fields x value (_ ∷ _) = refl

module _ (separator : ℕ) (sep : IsSeparator separator) (rows : List (List Text)) where
  scan-write_row :
      (fields : List Text) (value : Option Text) (values : List (Option Text)) (rest : Text)
      (started : Bool)
      → shows fields value values ≡ true
      → scan separator
          (write_row (value ∷ values) separator ++ cr ∷ lf ∷ rest)
          (at rows fields [] false started)
        ≡ scan separator rest (fresh_row (rows ++ (fields ++ cells (value ∷ values)) ∷ []))
  unfolding write_row
  scan-write_row fields value [] rest started h =
      let (b, p) =
        scan-escape_field separator sep rows fields value (cr ∷ lf ∷ rest) started refl in
      p
      ∙ (scan-step_twice separator cr lf rest _ _
            (step-line_end separator rows fields (cell value) b sep.not_cr)
          ∙ ap (λ r. scan separator rest (fresh_row r))
              (close_row_of_started separator sep rows fields (cell value) b h))
  scan-write_row fields value (value' ∷ values) rest started h =
      let (b, p) =
        scan-escape_field separator sep rows fields value
          (separator ∷ (write_row (value' ∷ values) separator ++ cr ∷ lf ∷ rest)) started
          sep.not_quote in
      rw (append_assoc (escape_field value separator)) (
        p
        ∙ (scan-step separator separator _ _ _
              (step-separator separator rows fields _ (cell value) b sep.not_quote)
            ∙ (scan-write_row (fields ++ cell value ∷ []) value' values rest true
                  (shows-concat fields (cell value) value' values)
                ∙ ap (λ r. scan separator rest (fresh_row (rows ++ r ∷ [])))
                    (append_assoc fields (cell value ∷ []) (cells (value' ∷ values))))))

abbrev line_end : Text
line_end = cr ∷ lf ∷ []

-- The lines of a file, each with its line end.
lines : List Text → Text
lines [] = []
lines (l ∷ ls) = l ++ (line_end ++ lines ls)

lines-join : (l : Text) (ls : List Text) → join (l ∷ ls) line_end ++ line_end ≡ lines (l ∷ ls)
unfolding join lines
lines-join l [] = refl
lines-join l (l' ∷ ls) =
    append_assoc l (line_end ++ join (l' ∷ ls) line_end) line_end
    ∙ ap (λ t. l ++ (line_end ++ t)) (lines-join l' ls)

-- A row that the format can tell from no row at all.
abbrev pub IsVisible : List Text → Type 0
IsVisible row = (row ≢ []) × (row ≢ [] ∷ [])

shows_of_IsVisible :
    (value : Option Text) (values : List (Option Text))
    → IsVisible (cells (value ∷ values))
    → shows [] value values ≡ true
shows_of_IsVisible (some (c ∷ s)) [] h = refl
shows_of_IsVisible (some []) [] h = absurd (h.1 refl)
shows_of_IsVisible none [] h = absurd (h.1 refl)
shows_of_IsVisible value (_ ∷ _) h = refl

module _ (separator : ℕ) (sep : IsSeparator separator) where
  scan-lines :
      (table : List (List (Option Text))) (rows : List (List Text))
      → All IsVisible (map cells table)
      → scan separator (lines (map (λ values. write_row values separator) table)) (fresh_row rows)
        ≡ rows ++ map cells table
  unfolding lines
  scan-lines [] rows h = unfold scan close_row in rw append-nil
  scan-lines ([] ∷ table) rows (h, hs) = absurd (h.0 refl)
  scan-lines ((value ∷ values) ∷ table) rows (h, hs) =
      scan-write_row separator sep rows [] value values
        (lines (map (λ vs. write_row vs separator) table)) false (shows_of_IsVisible value values h)
      ∙ (scan-lines table (rows ++ cells (value ∷ values) ∷ []) hs
          ∙ append_assoc rows (cells (value ∷ values) ∷ []) (map cells table))

-- The rows of fields that a table of records stands for: its header, and a cell for each column.
abbrev pub table_of : List Text → List Row → List (List (Option Text))
table_of columns rows = map some columns ∷ map (λ r. map (field r) columns) rows

map-write_row :
    (columns : List Text) (rows : List Row) (separator : ℕ)
    → map (λ values. write_row values separator) (map (λ r. map (field r) columns) rows)
      ≡ map (λ r. write_row (map (field r) columns) separator) rows
map-write_row columns [] separator = refl
map-write_row columns (r ∷ rows) separator =
    ap (◌∷◌ (write_row (map (field r) columns) separator)) (map-write_row columns rows separator)

-- What `writeCsv` wrote, `parseRows` reads back cell for cell, `null` as the empty text: for every
-- separator that is no quote and no line end, if no row, the header included, is empty or is one
-- empty cell.
pub parse_rows-write_csv :
    (separator : ℕ)
    → IsSeparator separator
    → (columns : List Text) (rows : List Row) → All IsVisible (map cells (table_of columns rows))
    → parse_rows (write_csv columns rows separator) separator ≡ map cells (table_of columns rows)
unfolding parse_rows write_csv
parse_rows-write_csv separator sep columns rows h =
    ap (λ t. scan separator t (fresh_row []))
      (lines-join _ _
        ∙ ap (λ ls. lines (write_row (map some columns) separator ∷ ls))
            (sym (map-write_row columns rows separator)))
    ∙ scan-lines separator sep (table_of columns rows) [] h
