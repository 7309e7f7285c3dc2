-- ===== src/Store.antt =====
-- web/src/db.ts: the local tracking of browser mode. This file has the records that are stored and
-- what the code relies on of an object store of IndexedDB, which is not part of the repository.
pub mod ObjectStore
pub mod Card
pub mod Revise
pub mod Register
pub mod Concurrency
pub mod Backup
pub mod Restore
pub mod Merge
pub mod Upload
mod ListStore
mod Examples
use paraphe.Common.{ℕ, Bool, true, false, Option, none, some, List, [], ◌∷◌, Text, codes}

-- A note of `Tracking["notes"]`.
pub record LocalNote : Type 0 where
  pub ts : Text
  pub status : Text
  pub note : Text
  pub edited_at : Option Text

-- What stands under `updated_at`: nothing or null, a text, or, in a record that was imported, a value
-- of another type, by its JSON text.
pub data Date : Type 0 where
  undated : Date
  dated other_date : Text → Date

-- One record per mayor.
pub record Tracking : Type 0 where
  pub insee_code : Text
  pub status : Text
  pub notes : List LocalNote
  pub updated_at : Date

-- `"to_contact"`
abbrev pub to_contact : Text
to_contact = codes "to_contact"
