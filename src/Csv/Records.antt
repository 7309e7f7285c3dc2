-- ===== src/Csv/Records.antt =====
-- noyau/csv.ts: what `parseRecords` reads back, by column name.
use paraphe.Common.{
  ℕ, Bool, none, some, List, [], ◌∷◌, map, Text, text_eq, text_eq_iff, if◌then◌else◌, ◌≡◌, refl, ap,
  arith, any, All,
}
use paraphe.Csv.{Row, field, assign, fill, records_of, parse_records, write_csv}
use paraphe.Csv.Steps.{IsSeparator}
use paraphe.Csv.RoundTrip.{IsVisible, cell, cells, table_of, parse_rows-write_csv}

-- Reading a property after an assignment.
pub field-assign :
    (o : Row) (key key' value : Text)
    → field (assign o key value) key' ≡ (if text_eq key key' then some value else field o key')
unfolding field assign
field-assign [] key key' value = refl
field-assign ((k, v) ∷ o) key key' value = ground (
  arith,
  text_eq_iff k key,
  text_eq_iff k key',
  text_eq_iff key key',
  field-assign o key key' value,
)

abbrev pub is_column : List Text → Text → Bool
is_column columns c = any (λ name. text_eq name c) columns

abbrev cells_of : List Text → Row → List Text
cells_of columns r = cells (map (field r) columns)

field-fill :
    (columns : List Text) (r o : Row) (c : Text)
    → field (fill columns (cells_of columns r) o) c
      ≡ (if is_column columns c then some (cell (field r c)) else field o c)
unfolding fill
field-fill [] r o c = refl
field-fill (name ∷ columns) r o c = ground (
  arith,
  field-fill columns r (assign o name (cell (field r name))) c,
  field-assign o name c (cell (field r name)),
  text_eq_iff name c,
)

-- The records `read` hold, for each column of `rows` in turn, the text of its cell, and nothing else.
abbrev pub ReadsBack : List Text → List Row → List Row → Type 0
ReadsBack columns [] [] = Unit {0}
ReadsBack columns (r ∷ rows) (o ∷ read) =
    ((c : Text) → field o c ≡ (if is_column columns c then some (cell (field r c)) else none))
    × ReadsBack columns rows read
ReadsBack columns _ _ = ⊥

map-fill :
    (columns : List Text) (rows : List Row)
    → ReadsBack columns rows
        (map (λ fields. fill columns fields []) (map cells (map (λ r. map (field r) columns) rows)))
map-fill columns [] = tt
map-fill columns (r ∷ rows) =
    (λ c. unfold field in field-fill columns r [] c, map-fill columns rows)

map-cell_some : (columns : List Text) → cells (map some columns) ≡ columns
map-cell_some [] = refl
map-cell_some (c ∷ columns) = ap (◌∷◌ c) (map-cell_some columns)

-- `parseRecords` gives back one record for each record written, in order: under each column the
-- text of its cell (the empty text for `null`), and no other property. The separator is no quote
-- and no line end, and no row, the header included, is empty or one empty cell.
pub parse_records-write_csv :
    (separator : ℕ)
    → IsSeparator separator
    → (columns : List Text) (rows : List Row) → All IsVisible (map cells (table_of columns rows))
    → ReadsBack columns rows (parse_records (write_csv columns rows separator) separator)
unfolding parse_records
parse_records-write_csv separator sep columns rows h =
    rw (parse_rows-write_csv separator sep columns rows h)
      (unfold records_of in rw (map-cell_some columns) (map-fill columns rows))
