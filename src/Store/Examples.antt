-- ===== src/Store/Examples.antt =====
-- Tests of the local tracking, and its theorems at concrete inputs.
use paraphe.Common.{
  ℕ, ◌≢◌, All, [], Bool, true, false, none, some, List, ◌∷◌, Text, codes, text_eq, text_eq_iff, ◌≡◌,
  refl, subst, ◌+◌, Bool-cases, inl, inr, length,
}
use mathlib.Core.Option.{some-injective, none-ne-some}
use paraphe.Store.{LocalNote, Date, dated, other_date, Tracking}
use paraphe.Store.ObjectStore.{ObjectStore, put_all}
use paraphe.Store.ListStore.{list_store, listing}
use paraphe.Store.Card.{NoteSeen}
use paraphe.Store.Revise.{EditOutcome, DeleteOutcome}
use paraphe.Store.Revise
use paraphe.Store.Register.{Action, save, edit, delete, act, act_all, AllRegister}
use paraphe.Store.Register
use paraphe.Store.Concurrency.{Stamp, stamps, added, history}
use paraphe.Store.Concurrency
use paraphe.Store.Backup.{
  StoredMayor, Setting, Backup, Database, Db, ImportReport, export_all, erase_all, import_all, logo,
  alone,
}
use paraphe.Store.Backup
use paraphe.Store.Restore.{IsRestored, IsExportable}
use paraphe.Store.Restore
use paraphe.Store.Merge.{KeepsHeld}
use paraphe.Store.Merge
use paraphe.Csv.{Row, field, parse_rows, parse_records, records_of}
use paraphe.Store.Upload.{required_columns, missing_columns, parse_csv}
use paraphe.Store.Upload.Columns.{HasColumns}
use paraphe.Store.Upload.Columns

abbrev tracking_store : ObjectStore Tracking (λ t. t.insee_code)
tracking_store = list_store (λ t. t.insee_code)

-- `>=` with a text that is no number on one side.
abbrev never : Date → Date → Bool
never a b = false

abbrev rodez : Text
rodez = codes "12202"

abbrev two_saves : List Action
two_saves =
    save rodez (codes "contacted") (codes "call") (codes "t1") (codes "t1")
    ∷ save rodez (codes "signed") (codes "yes") (codes "t2") (codes "t2")
    ∷ []

abbrev seen : NoteSeen
seen = record { ts = codes "t1"; status = codes "contacted"; note = codes "call" }

history_test :
    stamps (history never tracking_store (act_all never tracking_store [] two_saves) rodez)
    ≡ (codes "t2", codes "signed") ∷ (codes "t1", codes "contacted") ∷ []
unfolding act_all text_eq
history_test = refl

abbrev rodez_card : Tracking
rodez_card = record {
  insee_code = rodez;
  status = codes "signed";
  notes =
      record { ts = codes "t2"; status = codes "signed"; note = codes "yes"; edited_at = none }
      ∷ record {
        ts = codes "t1";
        status = codes "contacted";
        note = codes "call";
        edited_at = none;
      }
      ∷ [];
  updated_at = dated (codes "t2");
}

rodez_test : tracking_store.get (act_all never tracking_store [] two_saves) rodez ≡ some rodez_card
unfolding act_all text_eq
rodez_test = refl

act_all-AllRegister_example : Register.IsRegister rodez_card
act_all-AllRegister_example =
    Register.act_all-AllRegister never tracking_store [] two_saves (tt, (tt, tt)) (λ k t e. cc)
      rodez rodez_card rodez_test

act_all-added_example :
    stamps (history never tracking_store (act_all never tracking_store [] two_saves) rodez)
    ≡ added rodez two_saves (stamps (history never tracking_store [] rodez))
act_all-added_example =
    Concurrency.act_all-added never tracking_store [] rodez two_saves (tt, (tt, tt))

edit_note_lem_example :
    EditOutcome tracking_store
      (act_all never tracking_store [] two_saves)
      rodez
      1
      seen
      (codes "call back")
      (codes "t3")
edit_note_lem_example =
    Revise.edit_note_lem tracking_store (act_all never tracking_store [] two_saves) rodez 1 seen
      (codes "call back") (codes "t3")

delete_note_lem_example :
    DeleteOutcome tracking_store
      (act_all never tracking_store [] two_saves)
      rodez
      1
      seen
      (codes "t3")
delete_note_lem_example =
    Revise.delete_note_lem tracking_store (act_all never tracking_store [] two_saves) rodez 1 seen
      (codes "t3")

abbrev called : LocalNote
called = record {
  ts = codes "t1";
  status = codes "contacted";
  note = codes "call";
  edited_at = none;
}

abbrev called_card : Tracking
called_card = record {
  insee_code = rodez;
  status = codes "contacted";
  notes = called ∷ [];
  updated_at = dated (codes "t1");
}

later : codes "t2" ≢ codes "t1"
unfolding text_eq
later h = let e : false ≡ true = (text_eq_iff (codes "t2") (codes "t1")).1 h in cc e

-- A card that shows the note `called` first, while another tab saves a contact.
edit_note-save_tracking_example :
    Concurrency.IsMoved never tracking_store
      (called_card ∷ [])
      rodez
      (codes "signed")
      (codes "yes")
      (codes "t2")
      (codes "t2")
      called_card
      0
      called
      (codes "call back")
      (codes "t3")
unfolding text_eq
edit_note-save_tracking_example =
    Concurrency.edit_note-save_tracking never tracking_store (called_card ∷ []) rodez
      (codes "signed") (codes "yes") (codes "t2") (codes "t2") called_card 0 called
      (codes "call back") (codes "t3") refl refl ((later, tt), (tt, tt))

abbrev mayor_store : ObjectStore StoredMayor (λ m. m.insee_code)
mayor_store = list_store (λ m. m.insee_code)

abbrev setting_store : ObjectStore (Setting Text) (λ r. r.key)
setting_store = list_store (λ r. r.key)

abbrev signed_record : Tracking
signed_record = record {
  insee_code = rodez;
  status = codes "signed";
  notes = [];
  updated_at = dated (codes "t2");
}

abbrev database : Db Text some mayor_store tracking_store setting_store
database = record {
  mayors = record { insee_code = rodez; columns = (codes "commune", codes "Rodez") ∷ [] } ∷ [];
  tracking = signed_record ∷ [];
  settings = record { key = logo; value = codes "data:image/png" } ∷ [];
}

abbrev older : Db Text some mayor_store tracking_store setting_store
older = record database {
  tracking =
      record {
        insee_code = rodez;
        status = codes "contacted";
        notes = [];
        updated_at = dated (codes "t1");
      }
      ∷ [];
}

abbrev file : Backup Text
file = export_all Text some mayor_store tracking_store setting_store older (codes "t9")

database-IsExportable : IsExportable Text some mayor_store tracking_store setting_store database
unfolding Backup.usable_logo text_eq
database-IsExportable = record {
  mayors_keyed = refl;
  tracking_keyed = refl;
  inline_logo = λ r e.
      let same : ◌≡◌ {A = Setting Text} (record { key = logo; value = codes "data:image/png" }) r =
        cc in
      subst
        (λ (x : Setting Text).
          Backup.usable_logo Text some mayor_store tracking_store setting_store x.value ≡ true)
        same refl;
}

import_all-export_all_example :
    IsRestored Text some mayor_store tracking_store setting_store never database (codes "t9")
import_all-export_all_example =
    Restore.import_all-export_all Text some mayor_store tracking_store setting_store never database
      (codes "t9") database-IsExportable

abbrev merged : Db Text some mayor_store tracking_store setting_store
merged = record database {
  mayors =
      (record { insee_code = rodez; columns = (codes "commune", codes "Rodez") ∷ [] })
      ∷ database.mayors;
}

abbrev merge_report : ImportReport
merge_report = record { mayors = 1; tracking = 0; skipped = 1; settings = 0; kept_settings = 1 }

merge_test :
    import_all Text some mayor_store tracking_store setting_store never alone file true database
    ≡ some (merged, merge_report)
unfolding import_all Backup.write_tracking Backup.date_text Backup.date_ge Backup.text_ge
    Backup.import_mayors Backup.import_tracking Backup.import_settings Backup.valid_all
    Backup.valid_mayor Backup.valid_tracking export_all listing put_all text_eq
merge_test = refl

database-HasTextDates :
    Merge.HasTextDates Text some mayor_store tracking_store setting_store database file
unfolding Backup.date_text export_all listing
database-HasTextDates = (texts, ((codes "t1", refl), tt))
  where
    texts :
        (k : Text) (t : Tracking)
        → tracking_store.get database.tracking k ≡ some t
        → Merge.IsText t.updated_at
    texts k t e = elim (Bool-cases (text_eq rodez k)) [
      | inl b ↦
          let same : signed_record ≡ t = some-injective signed_record t (rw b at e) in
          subst (λ (x : Tracking). Merge.IsText x.updated_at) same (codes "t2", refl)
      | inr b ↦ absurd (none-ne-some t (rw b at e))
    ]

-- A date of another type than a text: the record of the file replaces the later one that is held.
abbrev wrong_file : Backup Text
wrong_file = record file {
  tracking =
      record {
        insee_code = some rodez;
        status = some (codes "to_contact");
        notes = some [];
        updated_at = other_date (codes "5");
      }
      ∷ [];
}

wrong_date_test :
    import_all Text some mayor_store tracking_store setting_store never alone wrong_file true
      database
    ≡ some (
      record merged {
        tracking =
            record {
              insee_code = rodez;
              status = codes "to_contact";
              notes = [];
              updated_at = other_date (codes "5");
            }
            ∷ database.tracking;
      },
      record merge_report { tracking = 1; skipped = 0 },
    )
unfolding import_all Backup.write_tracking Backup.date_text Backup.date_ge Backup.import_mayors
    Backup.import_tracking Backup.import_settings Backup.valid_all Backup.valid_mayor
    Backup.valid_tracking export_all listing put_all text_eq
wrong_date_test = refl

import_all_merge_example :
    KeepsHeld Text some mayor_store tracking_store setting_store database merged
import_all_merge_example =
    Merge.import_all_merge Text some mayor_store tracking_store setting_store never file database
      merged merge_report database-HasTextDates merge_test

import_all_count_example :
    ◌≡◌ {A = ℕ}
      (1 + 0 + 1 + 0 + 1)
      (length file.mayors + length file.tracking + length file.settings)
import_all_count_example =
    Merge.import_all_count Text some mayor_store tracking_store setting_store never alone file true
      database merged merge_report merge_test

abbrev small_list : Text
small_list =
    codes "insee_code;first_name;last_name;commune;department\n12202;Anne;Roche;Rodez;Aveyron\n"

abbrev small_row : Row
small_row =
    (codes "insee_code", codes "12202")
    ∷ (codes "first_name", codes "Anne")
    ∷ (codes "last_name", codes "Roche")
    ∷ (codes "commune", codes "Rodez")
    ∷ (codes "department", codes "Aveyron")
    ∷ []

small_list-accepted : parse_csv small_list ≡ some (small_row ∷ [])
unfolding parse_csv parse_records parse_rows records_of missing_columns field
small_list-accepted = refl

parse_csv-HasColumns_example :
    ((small_row ∷ []) ≢ []) × All (HasColumns required_columns) (small_row ∷ [])
parse_csv-HasColumns_example =
    Columns.parse_csv-HasColumns small_list (small_row ∷ []) small_list-accepted
