-- ===== src/Store/Upload.antt =====
-- web/src/db.ts: the list of mayors that is read from a file and stored, and the settings.
pub mod Columns
use paraphe.Common.{
  Bool, true, false, Option, none, some, List, [], ◌∷◌, Text, codes, if◌then◌else◌, ℕ, ◌++◌, any,
  text_eq, length,
}
use paraphe.Csv.{Row, field, parse_records}
use paraphe.Store.ObjectStore.{ObjectStore, put_all}
use paraphe.Store.Backup.{StoredMayor, Setting}

abbrev pub required_columns : List Text
required_columns =
    codes "insee_code"
    ∷ codes "first_name"
    ∷ codes "last_name"
    ∷ codes "commune"
    ∷ codes "department"
    ∷ []

abbrev pub is_some : Option Text → Bool
is_some none = false
is_some (some _) = true

-- `columns.filter((c) => !(c in row))`
unfoldable pub missing_columns : List Text → Row → List Text
missing_columns [] row = []
missing_columns (c ∷ columns) row =
    if is_some (field row c) then missing_columns columns row else c ∷ missing_columns columns row

-- `rows[0] ?? {}`
abbrev pub first_row : List Row → Row
first_row [] = []
first_row (row ∷ rows) = row

abbrev pub has_none : List Text → Bool
has_none [] = true
has_none (_ ∷ _) = false

-- `none` is the error on absent columns.
unfoldable pub parse_csv : Text → Option (List Row)
parse_csv text =
    let rows = parse_records text b';' in
    if has_none (missing_columns required_columns (first_row rows)) then some rows else none

-- `new Set(rows.map((r) => r.insee_code))`, in the order of insertion.
unfoldable pub distinct_codes : List Text → List StoredMayor → List Text
unfolding text_eq
distinct_codes seen [] = seen
distinct_codes seen (m ∷ rows) =
    distinct_codes (if any (text_eq m.insee_code) seen then seen else seen ++ m.insee_code ∷ [])
      rows

-- `loadMayors` and `replaceMayors`, with the number that it returns.
module _ (store : ObjectStore StoredMayor (λ m. m.insee_code)) where
  open store use {State, clear, get_all}

  unfoldable pub load_mayors : State → List StoredMayor
  load_mayors s = get_all s

  unfoldable pub replace_mayors : List StoredMayor → State → State × ℕ
  unfolding put_all distinct_codes
  replace_mayors rows s = (put_all store clear rows, length (distinct_codes [] rows))

module _ (Value : Type 0) (store : ObjectStore (Setting Value) (λ r. r.key)) where
  open store use {State, get, put}

  unfoldable pub read_setting : State → Text → Value → Value
  read_setting s key fallback = elim (get s key) [ none ↦ fallback | some r ↦ r.value ]

  unfoldable pub write_setting : State → Text → Value → State
  write_setting s key value = put s (record { key = key; value = value })
