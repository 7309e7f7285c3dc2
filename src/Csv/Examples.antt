-- ===== src/Csv/Examples.antt =====
-- Tests of the CSV format, and its theorems at a concrete input.
use paraphe.Common.{◌≡◌, refl, [], ◌∷◌, codes, Text, List, map, All}
use paraphe.Csv.{parse_rows, parse_records, write_csv, Row, field}
use paraphe.Csv.Steps.{IsSeparator}
use paraphe.Csv.RoundTrip.{IsVisible, cells, table_of, parse_rows-write_csv}
use paraphe.Csv.Records.{ReadsBack, parse_records-write_csv}

abbrev two_columns : List Text
two_columns = codes "a;b" ∷ codes "c" ∷ []

abbrev one_row : Row
one_row = (codes "c", codes "x\"y") ∷ []

read_back :
    parse_rows (write_csv two_columns (one_row ∷ []) b';') b';'
    ≡ two_columns ∷ ([] ∷ codes "x\"y" ∷ []) ∷ []
unfolding parse_rows write_csv
read_back = refl

quoted_line_end :
    parse_rows (codes "\"a\nb\";c\r\nd") b';'
    ≡ (codes "a\nb" ∷ codes "c" ∷ []) ∷ (codes "d" ∷ []) ∷ []
unfolding parse_rows
quoted_line_end = refl

semicolon-IsSeparator : IsSeparator b';'
semicolon-IsSeparator = record { not_quote = refl; not_cr = refl; not_lf = refl }

two_columns-IsVisible : All IsVisible (map cells (table_of two_columns (one_row ∷ [])))
unfolding field
two_columns-IsVisible = (((λ e. cc), (λ e. cc)), ((((λ e. cc), (λ e. cc))), tt))

parse_rows-write_csv_example :
    parse_rows (write_csv two_columns (one_row ∷ []) b';') b';'
    ≡ map cells (table_of two_columns (one_row ∷ []))
parse_rows-write_csv_example =
    parse_rows-write_csv b';' semicolon-IsSeparator two_columns (one_row ∷ []) two_columns-IsVisible

parse_records-write_csv_example :
    ReadsBack two_columns
      (one_row ∷ [])
      (parse_records (write_csv two_columns (one_row ∷ []) b';') b';')
parse_records-write_csv_example =
    parse_records-write_csv b';' semicolon-IsSeparator two_columns (one_row ∷ [])
      two_columns-IsVisible
