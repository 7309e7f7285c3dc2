-- ===== src/Store/Upload/Columns.antt =====
-- web/src/db.ts: the columns of a list of mayors that `parseCsv` accepts.
use paraphe.Common.{
  true, false, ◌||◌, none, some, List, [], ◌∷◌, Text, map, text_eq, ◌≡◌, ◌≢◌, refl, sym, ◌∙◌, subst,
  if◌then◌else◌, Bool-cases, inl, inr, All, arith,
}
use mathlib.Core.Option.{some-injective, none-ne-some}
use paraphe.Csv.{Row, field, assign, fill, records_of, parse_rows, parse_records}
use paraphe.Csv.Records.{field-assign, is_column}
use paraphe.Store.Upload.{
  required_columns, is_some, missing_columns, first_row, has_none, parse_csv,
}

-- The record has a value, if only an empty one, under each of the columns.
abbrev pub HasColumns : List Text → Row → Type 0
HasColumns columns row = All (λ c. is_some (field row c) ≡ true) columns

false-ne-true : false ≢ true
false-ne-true h = cc

HasColumns-of_missing :
    (columns : List Text) (row : Row)
    → has_none (missing_columns columns row) ≡ true
    → HasColumns columns row
unfolding missing_columns
HasColumns-of_missing [] row h = tt
HasColumns-of_missing (c ∷ columns) row h = elim (Bool-cases (is_some (field row c))) [
  | inl e ↦ (
    e,
    HasColumns-of_missing columns row (
        subst
          (λ b.
            has_none (if b then missing_columns columns row else c ∷ missing_columns columns row)
            ≡ true)
          e h),
  )
  | inr e ↦
      let p : false ≡ true =
        subst
          (λ b.
            has_none (if b then missing_columns columns row else c ∷ missing_columns columns row)
            ≡ true)
          e h in
      absurd (false-ne-true p)
]

is_some-assign :
    (o : Row) (key value c : Text)
    → is_some (field (assign o key value) c) ≡ (text_eq key c || is_some (field o c))
is_some-assign o key value c = ground (arith, field-assign o key c value)

-- What is under a column does not depend on the fields of the row.
is_some-fill :
    (header fields : List Text) (o : Row) (c : Text)
    → is_some (field (fill header fields o) c) ≡ (is_column header c || is_some (field o c))
unfolding fill
is_some-fill [] fields o c = refl
is_some-fill (name ∷ header) [] o c =
    ground (arith, is_some-fill header [] (assign o name []) c, is_some-assign o name [] c)
is_some-fill (name ∷ header) (v ∷ fields) o c =
    ground (arith, is_some-fill header fields (assign o name v) c, is_some-assign o name v c)

HasColumns-fill :
    (columns header fields fields' : List Text)
    → HasColumns columns (fill header fields [])
    → HasColumns columns (fill header fields' [])
HasColumns-fill [] header fields fields' h = tt
HasColumns-fill (c ∷ columns) header fields fields' (p, h) = (
  is_some-fill header fields' [] c ∙ (sym (is_some-fill header fields [] c) ∙ p),
  HasColumns-fill columns header fields fields' h,
)

HasColumns-map :
    (columns header fields : List Text) (rows : List (List Text))
    → HasColumns columns (fill header fields [])
    → All (HasColumns columns) (map (λ fs. fill header fs []) rows)
HasColumns-map columns header fields [] h = tt
HasColumns-map columns header fields (fs ∷ rows) h =
    (HasColumns-fill columns header fields fs h, HasColumns-map columns header fields rows h)

HasColumns-records_of :
    (columns : List Text) (rows : List (List Text))
    → HasColumns columns (first_row (records_of rows))
    → All (HasColumns columns) (records_of rows)
unfolding records_of
HasColumns-records_of columns [] h = tt
HasColumns-records_of columns (header ∷ []) h = tt
HasColumns-records_of columns (header ∷ fields ∷ rows) h =
    (h, HasColumns-map columns header fields rows h)

no_columns : ¬ (has_none (missing_columns required_columns []) ≡ true)
unfolding missing_columns field
no_columns h = false-ne-true h

-- A file that `parseCsv` accepts has a mayor, and every one of its mayors has each of the required
-- columns, although only the first is looked at.
pub parse_csv-HasColumns :
    (text : Text) (rows : List Row)
    → parse_csv text ≡ some rows
    → (rows ≢ []) × All (HasColumns required_columns) rows
unfolding parse_csv
parse_csv-HasColumns text rows h =
    let all = parse_records text b';' in
    let accepted = has_none (missing_columns required_columns (first_row all)) in
    elim (Bool-cases accepted) [
      | inl e ↦
          subst (λ rs. (rs ≢ []) × All (HasColumns required_columns) rs)
            (some-injective all rows (subst (λ b. (if b then some all else none) ≡ some rows) e h))
            (
              λ empty. no_columns (
                  subst (λ rs. has_none (missing_columns required_columns (first_row rs)) ≡ true)
                    empty e),
              unfold parse_records in
                  HasColumns-records_of required_columns (parse_rows text b';')
                    (HasColumns-of_missing required_columns (first_row all) e),
            )
      | inr e ↦
          absurd (none-ne-some rows (subst (λ b. (if b then some all else none) ≡ some rows) e h))
    ]
