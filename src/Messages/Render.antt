-- ===== src/Messages/Render.antt =====
-- noyau/messages.ts: `render` of `createEngine`, which fills a template.
pub mod Pieces
pub mod Printed
pub mod Tidy
use paraphe.Common.{
  ℕ, zero, suc, ◌-◌, Bool, true, false, not, ◌&&◌, ◌||◌, Option, none, some, List, [], ◌∷◌, ◌++◌,
  map, Text, codes, ◌==◌, if◌then◌else◌, ◌>>=◌, keep, length, starts_with, includes,
}
use paraphe.Csv.{Row, field, join, cr, lf}
use paraphe.Texte.Controls.{trim, is_nil}

-- A part of a template: a character as it is, or a match of `/\{([^{}]+)\}/`.
pub data Piece : Type 0 where
  verbatim : ℕ → Piece
  placeholder : Text → Piece

abbrev pub opening : ℕ
opening = b'{'

abbrev pub closing : ℕ
closing = b'}'

abbrev verbatims : Option Text → List Piece
verbatims none = []
verbatims (some raw) = verbatim opening ∷ map verbatim raw

-- What the next character completes, and the text since the last opening brace, if it may still
-- belong to a placeholder.
unfoldable pub read_brace : Option Text → ℕ → List Piece × Option Text
read_brace none c = if c == opening then ([], some []) else (verbatim c ∷ [], none)
read_brace (some raw) c =
    if c == opening
    then (verbatims (some raw), some [])
    else if c == closing
    then (
      (if is_nil raw then verbatim opening ∷ verbatim closing ∷ [] else placeholder raw ∷ []),
      none,
    )
    else ([], some (raw ++ c ∷ []))

unfoldable pub read_pieces : Option Text → Text → List Piece
read_pieces pending [] = verbatims pending
read_pieces pending (c ∷ s) =
    let (out, pending') = read_brace pending c in out ++ read_pieces pending' s

-- The replacement of the placeholders; `none` is the error on an unknown one.
unfoldable pub substitute : Row → List Piece → Option Text
substitute ch [] = some []
substitute ch (verbatim c ∷ ps) = do text ← substitute ch ps; some (c ∷ text)
substitute ch (placeholder raw ∷ ps) = do
  value ← field ch (trim raw)
  text ← substitute ch ps
  some (value ++ text)

-- `s.split(separator)` for a separator that is not empty, with the number of characters of a
-- separator that are still to be passed over and the part under way.
unfoldable pub split_from : Text → ℕ → Text → Text → List Text
split_from separator n part [] = part ∷ []
split_from separator (suc n) part (c ∷ s) = split_from separator n part s
split_from separator zero part (c ∷ s) = elim (starts_with (c ∷ s) separator) [
  | true ↦ part ∷ split_from separator (length separator - 1) [] s
  | false ↦ split_from separator 0 (part ++ c ∷ []) s
]

unfoldable pub split : Text → Text → List Text
unfolding split_from starts_with
split s separator = split_from separator 0 [] s

abbrev dash : Text
dash = codes " — "

-- A line without the empty sides of its dashes.
unfoldable pub join_parts : Text → Text
unfolding includes split join trim
join_parts line =
    if includes line dash
    then join (keep (λ part. not (is_nil (trim part))) (split line dash)) dash
    else line

abbrev pub starts_with_char : ℕ → Text → Bool
starts_with_char c [] = false
starts_with_char c (d ∷ s) = d == c

-- `s.replaceAll("\r\n", "\n")`
unfoldable pub replace_crlf : Text → Text
replace_crlf [] = []
replace_crlf (c ∷ s) =
    let rest = replace_crlf s in if c == cr && starts_with_char lf s then rest else c ∷ rest

-- `s.replaceAll("\r", "\n")`
unfoldable pub replace_cr : Text → Text
replace_cr [] = []
replace_cr (c ∷ s) = (if c == cr then lf else c) ∷ replace_cr s

abbrev pub is_blank : ℕ → Bool
is_blank c = c == 32 || c == 9

-- `s.replace(/[ \t]+\n/g, "\n")`
unfoldable pub strip_blanks : Text → Text
strip_blanks [] = []
strip_blanks (c ∷ s) =
    let rest = strip_blanks s in if is_blank c && starts_with_char lf rest then rest else c ∷ rest

abbrev pub starts_with_two : Text → Bool
starts_with_two [] = false
starts_with_two (c ∷ s) = c == lf && starts_with_char lf s

-- `s.replace(/\n{3,}/g, "\n\n")`
unfoldable pub collapse_lines : Text → Text
collapse_lines [] = []
collapse_lines (c ∷ s) =
    let rest = collapse_lines s in if c == lf && starts_with_two rest then rest else c ∷ rest

-- What `render` does with the text whose placeholders are filled.
unfoldable pub tidy : Text → Text
tidy text =
    let joined = join (map join_parts (split text (lf ∷ []))) (lf ∷ []) in
    trim (collapse_lines (strip_blanks (replace_cr (replace_crlf joined)))) ++ lf ∷ []

-- `none` is `InvalidTemplate`.
unfoldable pub render : Row → Text → Row → Option Text
render templates name ch = do
  template ← field templates name
  text ← substitute ch (read_pieces none template)
  some (tidy text)
