-- ===== src/Crossing/Files/Shape.antt =====
-- outils/build.ts and outils/messages-masse.ts: to which of the files the mailing writes.
use paraphe.Common.{
  true, false, none, some, List, [], ◌∷◌, map, Text, text_eq, All, ◌≡◌, refl, ap, ◌∙◌, sort_by,
}
use paraphe.Csv.{Row, field, write_csv, parse_rows, parse_records}
use paraphe.Csv.Steps.{IsSeparator}
use paraphe.Csv.RoundTrip.{IsVisible, cells, parse_rows-write_csv}
use paraphe.Texte.Unicode.{Unicode}
use paraphe.Messages.Fields.{Options}
use paraphe.Crossing.Entities.{Official, Contact, Person, Target}
use paraphe.Crossing.Sources.{header_of}
use paraphe.Crossing.Rows.{target_row, former_rows}
use paraphe.Crossing.Files.{
  target_columns, former_columns, base_columns, former_file, target_file, base_file, base_rows,
  base_before,
}
use paraphe.Mailing.{nothing_sent, has_shape, send_all, mail_list}

semicolon : IsSeparator b';'
semicolon = record { not_quote = refl; not_cr = refl; not_lf = refl }

IsVisible-two : (x y : Text) (row : List Text) → IsVisible (x ∷ y ∷ row)
IsVisible-two x y row = (λ e. cc, λ e. cc)

IsVisible-rows :
    (a b : Text) (columns : List Text) (rows : List Row)
    → All IsVisible (map cells (map (λ r. map (field r) (a ∷ b ∷ columns)) rows))
IsVisible-rows a b columns [] = tt
IsVisible-rows a b columns (r ∷ rows) = (IsVisible-two _ _ _, IsVisible-rows a b columns rows)

cells-some : (columns : List Text) → cells (map some columns) ≡ columns
cells-some [] = refl
cells-some (c ∷ columns) = ap (◌∷◌ c) (cells-some columns)

abbrev IsLong : List Text → Type 0
IsLong (a ∷ b ∷ columns) = Unit {0}
IsLong _ = ⊥

-- The columns that `writeCsv` writes are read back, if there are two or more.
header-write_csv :
    (columns : List Text) (rows : List Row)
    → IsLong columns
    → header_of (parse_rows (write_csv columns rows b';') b';') ≡ columns
header-write_csv [] rows h = absurd h
header-write_csv (a ∷ []) rows h = absurd h
header-write_csv (a ∷ b ∷ columns) rows h =
    ap header_of (
      parse_rows-write_csv b';' semicolon (a ∷ b ∷ columns) rows
        (IsVisible-two a b _, IsVisible-rows a b columns rows))
    ∙ ap (λ cs. a ∷ b ∷ cs) (cells-some columns)

former_columns-IsLong : IsLong former_columns
unfolding former_columns text_eq
former_columns-IsLong = tt

header-former_file :
    (rows : List Person) → header_of (parse_rows (former_file rows) b';') ≡ former_columns
unfolding former_file
header-former_file rows = header-write_csv former_columns (former_rows rows) former_columns-IsLong

former_columns-refused : has_shape former_columns ≡ false
unfolding has_shape former_columns text_eq
former_columns-refused = refl

base_columns-refused : has_shape base_columns ≡ false
unfolding has_shape text_eq
base_columns-refused = refl

target_columns-taken : has_shape target_columns ≡ true
unfolding has_shape text_eq
target_columns-taken = refl

module _ (unicode : Unicode) (templates c : Row) (opts : Options) where
  refused :
      (text : Text) (columns : List Text)
      → header_of (parse_rows text b';') ≡ columns
      → has_shape columns ≡ false
      → mail_list unicode templates c opts text ≡ none
  unfolding mail_list
  refused text columns e h = rw (e, h) refl

  taken :
      (text : Text) (columns : List Text)
      → header_of (parse_rows text b';') ≡ columns
      → has_shape columns ≡ true
      → mail_list unicode templates c opts text
        ≡ send_all unicode templates c opts (parse_records text b';') nothing_sent
  unfolding mail_list
  taken text columns e h = rw (e, h) refl

  header-base_file :
      (contacts : List (Text × Contact)) (kept : List Target) (former : List Person)
      (by_person : List (Text × List Official))
      → header_of (parse_rows (base_file unicode contacts kept former by_person) b';')
        ≡ base_columns
  unfolding base_file
  header-base_file contacts kept former by_person =
      header-write_csv base_columns
        (sort_by base_before (base_rows unicode contacts kept former by_person)) tt

  header-target_file :
      (kept : List Target) → header_of (parse_rows (target_file unicode kept) b';') ≡ target_columns
  unfolding target_file
  header-target_file kept = header-write_csv target_columns (map (target_row unicode) kept) tt

  -- The mailing refuses the files of the former mayors and of the endorsers to check by hand, and
  -- the file of all mayors, whatever their rows; file 01 is not refused.
  pub mail_list-files :
      ((rows : List Person) → mail_list unicode templates c opts (former_file rows) ≡ none)
      × ((contacts : List (Text × Contact)) (kept : List Target) (former : List Person)
            (by_person : List (Text × List Official))
          → mail_list unicode templates c opts (base_file unicode contacts kept former by_person)
            ≡ none)
      × ((kept : List Target)
          → mail_list unicode templates c opts (target_file unicode kept)
            ≡ send_all unicode templates c opts
                (parse_records (target_file unicode kept) b';')
                nothing_sent)
  mail_list-files = (
    λ rows.
        refused (former_file rows) former_columns (header-former_file rows) former_columns-refused,
    λ contacts kept former by_person.
        refused (base_file unicode contacts kept former by_person) base_columns
          (header-base_file contacts kept former by_person) base_columns-refused,
    λ kept.
        taken (target_file unicode kept) target_columns (header-target_file kept)
          target_columns-taken,
  )
