-- ===== src/Store/Backup.antt =====
-- web/src/db.ts: the full backup, its import, and the erasure of everything.
use paraphe.Common.{
  ℕ, ◌+◌, ◌-◌, Bool, true, false, not, ◌||◌, ◌&&◌, Option, none, some, List, [], ◌∷◌, map, Text,
  codes, text_eq, if◌then◌else◌, length, any, ltb, ◌==◌, starts_with,
}
use paraphe.Store.{LocalNote, Date, undated, dated, other_date, Tracking}
use paraphe.Store.ObjectStore.{ObjectStore, put_all}

-- A mayor as stored: the columns behind the key are carried as they are.
pub record StoredMayor : Type 0 where
  pub insee_code : Text
  pub columns : List (Text × Text)

-- `validTracking` and the filter on mayors read a file that may hold anything: a property is `none`
-- where it is missing or is of another type, and an entry that is no object has none. The code does
-- not test `updated_at`, so that any value stands there.
pub record RawMayor : Type 0 where
  pub insee_code : Option Text
  pub columns : List (Text × Text)

pub record RawTracking : Type 0 where
  pub insee_code : Option Text
  pub status : Option Text
  pub notes : Option (List LocalNote)
  pub updated_at : Date

-- `a >= b` on texts
unfoldable pub text_ge : Text → Text → Bool
text_ge s [] = true
text_ge [] (d ∷ t) = false
text_ge (c ∷ s) (d ∷ t) = if ltb d c then true else if c == d then text_ge s t else false

abbrev is_empty_text : Text → Bool
is_empty_text [] = true
is_empty_text (_ ∷ _) = false

-- `typeof m?.insee_code === "string" && m.insee_code !== ""`
unfoldable pub valid_mayor : RawMayor → Option StoredMayor
valid_mayor m = elim m.insee_code [
  | none ↦ none
  | some k ↦ if is_empty_text k then none else some (record { insee_code = k; columns = m.columns })
]

unfoldable pub valid_tracking : RawTracking → Option Tracking
valid_tracking t = elim t.insee_code [
  | none ↦ none
  | some k ↦ elim t.status [
    | none ↦ none
    | some status ↦ elim t.notes [
      | none ↦ none
      | some notes ↦
          if is_empty_text k
          then none
          else some
              (record { insee_code = k; status = status; notes = notes; updated_at = t.updated_at })
    ]
  ]
]

-- `xs.filter(valid)`, with each entry read at its checked type.
unfoldable pub valid_all {ℓ κ} : {A : Type ℓ} {B : Type κ} → (A → Option B) → List A → List B
valid_all valid [] = []
valid_all valid (x ∷ xs) = elim (valid x) [
  | none ↦ valid_all valid xs
  | some y ↦ y ∷ valid_all valid xs
]

pub record ImportReport : Type 0 where
  pub mayors : ℕ
  pub tracking : ℕ
  pub skipped : ℕ
  pub settings : ℕ
  pub kept_settings : ℕ

-- The value of a setting is unknown; the parameter `Value` stands for what the browser can store.
pub record Setting (Value : Type 0) : Type 0 where
  pub key : Text
  pub value : Value

pub record Backup (Value : Type 0) : Type 0 where
  pub format : Text
  pub exported_at : Text
  pub mayors : List RawMayor
  pub tracking : List RawTracking
  pub settings : List (Setting Value)

pub record Database (Mayors Trackings Settings : Type 0) : Type 0 where
  pub mayors : Mayors
  pub tracking : Trackings
  pub settings : Settings

abbrev pub raw_mayor : StoredMayor → RawMayor
raw_mayor m = record { insee_code = some m.insee_code; columns = m.columns }

abbrev pub raw_tracking : Tracking → RawTracking
raw_tracking t = record {
  insee_code = some t.insee_code;
  status = some t.status;
  notes = some t.notes;
  updated_at = t.updated_at;
}

abbrev pub logo : Text
logo = codes "logo"

-- `updated_at ?? ""`, if that is a text.
unfoldable pub date_text : Date → Option Text
date_text undated = some []
date_text (dated t) = some t
date_text (other_date json) = none

-- `a >= b` where the operands are `a ?? ""` and `b ?? ""`: on texts, and what the language makes of
-- it if one of them is of another type.
unfoldable pub date_ge : (Date → Date → Bool) → Date → Date → Bool
date_ge other_ge a b = elim (date_text a) [
  | none ↦ other_ge a b
  | some s ↦ elim (date_text b) [ none ↦ other_ge a b | some t ↦ text_ge s t ]
]

-- The parameters are `>=` where an operand is no text, and the object store.
module _ (other_ge : Date → Date → Bool) (T : ObjectStore Tracking (λ t. t.insee_code)) where
  -- `already && (already.updated_at ?? "") >= (e.updated_at ?? "")`
  unfoldable pub is_held : Option Tracking → Tracking → Bool
  is_held none e = false
  is_held (some already) e = date_ge other_ge already.updated_at e.updated_at

  -- The loop over the tracking: the store, and how many records were written and skipped.
  unfoldable pub import_tracking :
      (Text → Option Tracking) → List Tracking → T.State → ℕ → ℕ → T.State × ℕ × ℕ
  unfolding is_held
  import_tracking existing [] s taken skipped = (s, taken, skipped)
  import_tracking existing (e ∷ trackings) s taken skipped =
      let held = import_tracking existing trackings s taken (skipped + 1) in
      let written = import_tracking existing trackings (T.put s e) (taken + 1) skipped in
      if is_held (existing e.insee_code) e then held else written

  -- The transaction that writes the tracking, on the store as it is then. What `existing` gives was
  -- read in a transaction before.
  unfoldable pub write_tracking :
      Bool → (Text → Option Tracking) → List Tracking → T.State → ℕ → T.State × ℕ × ℕ
  write_tracking merge existing trackings s skipped =
      import_tracking existing trackings (if merge then s else T.clear) 0 skipped

-- What other tabs do to a store between two transactions of an import: to the tracking after
-- `loadTracking`, and to the settings before each one that is written, by how many were before.
pub record Elsewhere (Trackings Settings : Type 0) : Type 0 where
  pub tracking : Trackings → Trackings
  pub settings : ℕ → Settings → Settings

-- No other tab does anything.
abbrev pub alone : {Trackings Settings : Type 0} → Elsewhere Trackings Settings
alone = record { tracking = λ s. s; settings = λ n s. s }

-- The parameters are the values of settings, `typeof v === "string"` with the string, and the
-- three object stores.
module _ (Value : Type 0) (as_text : Value → Option Text)
    (M : ObjectStore StoredMayor (λ m. m.insee_code)) (T : ObjectStore Tracking (λ t. t.insee_code))
    (S : ObjectStore (Setting Value) (λ r. r.key)) where
  abbrev pub Db : Type 0
  Db = Database M.State T.State S.State

  unfoldable pub usable_logo : Value → Bool
  unfolding starts_with
  usable_logo v = elim (as_text v) [
    | none ↦ false
    | some s ↦ is_empty_text s || starts_with s (codes "data:image/")
  ]

  unfoldable pub export_all : Db → Text → Backup Value
  export_all db now = record {
    format = codes "paraphe/1";
    exported_at = now;
    mayors = map raw_mayor (M.get_all db.mayors);
    tracking = map raw_tracking (T.get_all db.tracking);
    settings = S.get_all db.settings;
  }

  unfoldable pub erase_all : Db → Db
  erase_all db = record { mayors = M.clear; tracking = T.clear; settings = S.clear }

  -- The transaction on the mayors; it does not run for a file without one.
  unfoldable pub import_mayors : Bool → List StoredMayor → M.State → M.State
  unfolding put_all
  import_mayors merge [] s = s
  import_mayors merge (m ∷ mayors) s = put_all M (if merge then s else M.clear) (m ∷ mayors)

  -- The loop over the settings, each of which has a transaction of its own: the store, and how many were written, skipped and kept.
  unfoldable pub import_settings :
      (ℕ → S.State → S.State)
      → Bool
      → (Text → Bool)
      → List (Setting Value)
      → S.State
      → ℕ
      → ℕ
      → ℕ
      → S.State × ℕ × ℕ × ℕ
  unfolding usable_logo text_eq
  import_settings elsewhere merge held [] s taken skipped kept = (s, taken, skipped, kept)
  import_settings elsewhere merge held (r ∷ settings) s taken skipped kept =
      let refused = import_settings elsewhere merge held settings s taken (skipped + 1) kept in
      let written =
        import_settings elsewhere merge held settings (S.put (elsewhere taken s) r) (taken + 1)
          skipped kept in
      let left = import_settings elsewhere merge held settings s taken skipped (kept + 1) in
      if text_eq r.key logo && not (usable_logo r.value)
      then refused
      else if not merge || not (held r.key)
      then written
      else left

  -- `none` is the error on an unknown format. `db` is each store as the import finds it, and the
  -- result as its last transaction on each leaves it.
  unfoldable pub import_all :
      (Date → Date → Bool)
      → Elsewhere T.State S.State
      → Backup Value
      → Bool
      → Db
      → Option (Db × ImportReport)
  import_all other_ge elsewhere file merge db =
      let mayors = valid_all valid_mayor file.mayors in
      let trackings = valid_all valid_tracking file.tracking in
      let dropped : ℕ =
        length file.mayors - length mayors + (length file.tracking - length trackings) in
      let existing = λ (k : Text). if merge then T.get db.tracking k else none in
      let (tracking, n_tracking, skipped) =
        write_tracking other_ge T merge existing trackings (elsewhere.tracking db.tracking)
          dropped in
      let held = λ (k : Text). any (λ r. text_eq r.key k) (S.get_all db.settings) in
      let (settings, n_settings, skipped', kept) =
        import_settings elsewhere.settings merge held file.settings db.settings 0 skipped 0 in
      if text_eq file.format (codes "paraphe/1")
      then some (
        record {
          mayors = import_mayors merge mayors db.mayors;
          tracking = tracking;
          settings = settings;
        },
        record {
          mayors = length mayors;
          tracking = n_tracking;
          skipped = skipped';
          settings = n_settings;
          kept_settings = kept;
        },
      )
      else none
