-- ===== src/Store/Card.antt =====
-- web/src/db.ts: reading and writing the record of one mayor.
use paraphe.Common.{
  ℕ, zero, suc, Bool, not, ◌||◌, Option, none, some, List, [], ◌∷◌, Text, text_eq, if◌then◌else◌,
  get_elem?,
}
use paraphe.Store.{LocalNote, Tracking, dated, to_contact}
use paraphe.Store.ObjectStore.{ObjectStore}

-- `current?.notes ?? []`
abbrev pub notes_of : Option Tracking → List LocalNote
notes_of none = []
notes_of (some t) = t.notes

-- `Pick<LocalNote, "ts" | "status" | "note">`
pub record NoteSeen : Type 0 where
  pub ts : Text
  pub status : Text
  pub note : Text

-- The test of `reviseNote` on the note at the position.
unfoldable pub is_seen : LocalNote → NoteSeen → Bool
unfolding text_eq
is_seen at expected = not (
    not (text_eq at.ts expected.ts)
    || not (text_eq at.status expected.status)
    || not (text_eq at.note expected.note))

-- What `reviseNote` decides on the record it reads: `none` refuses.
unfoldable pub decide_note :
    ℕ → NoteSeen → (Tracking → List LocalNote → Tracking) → Option Tracking → Option Tracking
unfolding is_seen
decide_note index expected revise none = none
decide_note index expected revise (some current) = elim (get_elem? current.notes index) [
  | none ↦ none
  | some at ↦ if is_seen at expected then some (revise current current.notes) else none
]

-- `notes.map((n, i) => i === index ? { ...n, note: text, edited_at: now } : n)`
unfoldable pub edit_at : ℕ → Text → Text → List LocalNote → List LocalNote
edit_at index text now [] = []
edit_at zero text now (n ∷ notes) = record n { note = text; edited_at = some now } ∷ notes
edit_at (suc index) text now (n ∷ notes) = n ∷ edit_at index text now notes

-- `held.filter((_, i) => i !== index)`
unfoldable pub remove_at {ℓ} : {A : Type ℓ} → ℕ → List A → List A
remove_at index [] = []
remove_at zero (n ∷ notes) = notes
remove_at (suc index) (n ∷ notes) = n ∷ remove_at index notes

-- The status that a history gives its card: `notes[0]?.status ?? "to_contact"`.
abbrev pub head_status : List LocalNote → Text
head_status [] = to_contact
head_status (n ∷ _) = n.status

abbrev pub head_ts : List LocalNote → Text → Text
head_ts [] now = now
head_ts (n ∷ _) now = n.ts

-- The revision of `editNote`.
unfoldable pub edited : ℕ → Text → Text → Tracking → List LocalNote → Tracking
unfolding edit_at
edited index text now current notes = record current { notes = edit_at index text now notes }

-- The revision of `deleteNote`.
unfoldable pub deleted : ℕ → Text → Tracking → List LocalNote → Tracking
unfolding remove_at
deleted index now current held =
    let notes = remove_at index held in
    record current {
      status = head_status notes;
      updated_at = dated (head_ts notes now);
      notes = notes;
    }

-- The record of `saveTracking`. The clock is read twice, for the card and then for the note.
unfoldable pub saved : Text → Text → Text → Text → Text → Option Tracking → Tracking
saved insee status note card_time note_time current = record {
  insee_code = insee;
  status = status;
  notes =
      record { ts = note_time; status = status; note = note; edited_at = none } ∷ notes_of current;
  updated_at = dated card_time;
}

module _ (store : ObjectStore Tracking (λ t. t.insee_code)) where
  open store use {State, get, put}

  -- `reviseTracking`: one transaction reads, decides and writes. The result is the stored record.
  unfoldable pub revise_tracking :
      State → Text → (Option Tracking → Option Tracking) → State × Option Tracking
  revise_tracking s insee decide = elim (decide (get s insee)) [
    | none ↦ (s, none)
    | some entry ↦ (put s entry, some entry)
  ]

  -- `readTracking`
  unfoldable pub read_tracking : State → Text → Option Tracking
  read_tracking s insee = get s insee

  unfoldable pub save_tracking : State → Text → Text → Text → Text → Text → State × Option Tracking
  unfolding revise_tracking saved
  save_tracking s insee status note card_time note_time =
      revise_tracking s insee
        (λ current. some (saved insee status note card_time note_time current))

  -- `none` in the second place is the error that `reviseNote` throws.
  unfoldable pub revise_note :
      State → Text → ℕ → NoteSeen → (Tracking → List LocalNote → Tracking) → State × Option Tracking
  unfolding revise_tracking decide_note
  revise_note s insee index expected revise =
      revise_tracking s insee (decide_note index expected revise)

  unfoldable pub edit_note : State → Text → ℕ → NoteSeen → Text → Text → State × Option Tracking
  unfolding revise_note edited
  edit_note s insee index expected text now =
      revise_note s insee index expected (edited index text now)

  unfoldable pub delete_note : State → Text → ℕ → NoteSeen → Text → State × Option Tracking
  unfolding revise_note deleted
  delete_note s insee index expected now = revise_note s insee index expected (deleted index now)
