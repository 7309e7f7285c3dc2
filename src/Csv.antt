-- ===== src/Csv.antt =====
-- noyau/csv.ts: reading and writing CSV.
pub mod Steps
pub mod RoundTrip
pub mod Records
mod Examples
use paraphe.Common.{
  ℕ, Bool, true, false, not, ◌||◌, ◌&&◌, Option, none, some, List, [], ◌∷◌, ◌++◌, map, Text, codes,
  text_eq, has_char, ◌==◌, if◌then◌else◌, or_else,
}

abbrev pub bom : ℕ
bom = 0xfeff

abbrev pub quote : ℕ
quote = b'"'

abbrev pub cr : ℕ
cr = 13

abbrev pub lf : ℕ
lf = 10

-- The variables of the loop of `parseRows`.
pub record Scan : Type 0 where
  pub rows : List (List Text)
  pub fields : List Text
  pub current : Text
  pub in_quotes : Bool
  pub started : Bool

abbrev is_empty {ℓ} : {A : Type ℓ} → List A → Bool
is_empty [] = true
is_empty (_ ∷ _) = false

-- `source[i + 1] === c`, which is false past the end
abbrev next_is : Option ℕ → ℕ → Bool
next_is none c = false
next_is (some d) c = d == c

-- `fields.push(current); rows.push(fields)` if a row is under way
unfoldable pub close_row : Scan → List (List Text)
close_row s =
    if s.started || not (is_empty s.current) || not (is_empty s.fields)
    then s.rows ++ (s.fields ++ s.current ∷ []) ∷ []
    else s.rows

abbrev fresh_row : List (List Text) → Scan
fresh_row rows = record {
  rows = rows;
  fields = [];
  current = [];
  in_quotes = false;
  started = false;
}

-- One round of the loop at the character `c`, which `next` follows. The second part of the result
-- tells that the round has also read the next character (`i++`).
unfoldable pub step : ℕ → ℕ → Option ℕ → Scan → Scan × Bool
unfolding close_row
step separator c next s =
    if s.in_quotes
    then (if c == quote
        then (if next_is next quote
            then (record s { current = s.current ++ quote ∷ [] }, true)
            else (record s { in_quotes = false }, false))
        else (record s { current = s.current ++ c ∷ [] }, false))
    else if c == quote && is_empty s.current
    then (record s { in_quotes = true; started = true }, false)
    else if c == separator
    then (record s { fields = s.fields ++ s.current ∷ []; current = []; started = true }, false)
    else if c == cr || c == lf
    then (fresh_row (close_row s), c == cr && next_is next lf)
    else (record s { current = s.current ++ c ∷ []; started = true }, false)

-- The loop of `parseRows`, and what follows it.
unfoldable pub scan : ℕ → Text → Scan → List (List Text)
unfolding step close_row
scan separator [] s = close_row s
scan separator (c ∷ []) s = close_row (step separator c none s).0
scan separator (c ∷ d ∷ rest) s =
    let (s', skip) = step separator c (some d) s in
    let after_next = scan separator rest s' in
    let after = scan separator (d ∷ rest) s' in if skip then after_next else after

-- `text.startsWith(BOM) ? text.slice(1) : text`
abbrev strip_bom : Text → Text
strip_bom [] = []
strip_bom (c ∷ s) = if c == bom then s else c ∷ s

unfoldable pub parse_rows : Text → ℕ → List (List Text)
unfolding scan
parse_rows text separator = scan separator (strip_bom text) (fresh_row [])

-- A `Record<string, string>`, with its keys in the order of their first assignment.
abbrev pub Row : Type 0
Row = List (Text × Text)

-- `o[key]`
unfoldable pub field : Row → Text → Option Text
unfolding text_eq
field [] key = none
field ((k, v) ∷ o) key = if text_eq k key then some v else field o key

-- `o[key] = value`
unfoldable pub assign : Row → Text → Text → Row
unfolding text_eq
assign [] key value = (key, value) ∷ []
assign ((k, v) ∷ o) key value =
    if text_eq k key then (k, value) ∷ o else (k, v) ∷ assign o key value

-- `header.forEach((name, i) => { o[name] = fields[i] ?? ""; })`
unfoldable pub fill : List Text → List Text → Row → Row
unfolding assign
fill [] fields o = o
fill (name ∷ header) [] o = fill header [] (assign o name [])
fill (name ∷ header) (v ∷ fields) o = fill header fields (assign o name v)

unfoldable pub records_of : List (List Text) → List Row
unfolding fill
records_of [] = []
records_of (header ∷ rows) = map (λ fields. fill header fields []) rows

unfoldable pub parse_records : Text → ℕ → List Row
unfolding parse_rows records_of
parse_records text separator = records_of (parse_rows text separator)

-- `s.replaceAll('"', '""')`
unfoldable pub double_quotes : Text → Text
double_quotes [] = []
double_quotes (c ∷ s) = (if c == quote then quote ∷ quote ∷ [] else c ∷ []) ++ double_quotes s

-- `null` and `undefined` are `none`; any other value is given as its `String(value)`.
unfoldable pub escape_field : Option Text → ℕ → Text
unfolding double_quotes
escape_field value separator =
    let s = or_else value [] in
    if has_char separator s || has_char quote s || has_char cr s || has_char lf s
    then quote ∷ (double_quotes s ++ quote ∷ [])
    else s

-- `parts.join(glue)`
unfoldable pub join : List Text → Text → Text
join [] glue = []
join (part ∷ []) glue = part
join (part ∷ part' ∷ parts) glue = part ++ (glue ++ join (part' ∷ parts) glue)

-- `columns.map((c) => escapeField(r[c], separator)).join(separator)`
unfoldable pub write_row : List (Option Text) → ℕ → Text
unfolding join escape_field
write_row values separator = join (map (λ v. escape_field v separator) values) (separator ∷ [])

unfoldable pub write_csv : List Text → List Row → ℕ → Text
unfolding write_row join field
write_csv columns rows separator =
    let out =
      write_row (map some columns) separator
      ∷ map (λ r. write_row (map (field r) columns) separator) rows in
    bom ∷ (join out (cr ∷ lf ∷ []) ++ cr ∷ lf ∷ [])
