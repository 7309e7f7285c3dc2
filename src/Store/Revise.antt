-- ===== src/Store/Revise.antt =====
-- web/src/db.ts: what editing and deleting a note change, and when they are refused.
use paraphe.Common.{
  ℕ, zero, suc, true, none, some, List, [], ◌∷◌, Text, text_eq_iff, if◌then◌else◌, get_elem?, ltb,
  ◌==◌, ◌≡◌, ◌↔◌, ◌⊎◌, inl, inr, refl, arith, Option-cases, Bool-cases,
}
use paraphe.Store.{LocalNote, Date, dated, Tracking}
use paraphe.Store.ObjectStore.{ObjectStore}
use paraphe.Store.Card.{
  NoteSeen, is_seen, decide_note, edit_at, remove_at, head_status, head_ts, edited, deleted,
  revise_tracking, revise_note, edit_note, delete_note,
}

-- The three fields of the note are those that the screen showed.
abbrev pub IsSeen : LocalNote → NoteSeen → Type 0
IsSeen at expected =
    (at.ts ≡ expected.ts) × (at.status ≡ expected.status) × (at.note ≡ expected.note)

pub is_seen_iff :
    (at : LocalNote) (expected : NoteSeen) → (is_seen at expected ≡ true) ↔ IsSeen at expected
unfolding is_seen
is_seen_iff at expected = ground (
  arith,
  text_eq_iff at.ts expected.ts,
  text_eq_iff at.status expected.status,
  text_eq_iff at.note expected.note,
)

-- Positions of a history after an edit.
pub get_elem?-edit_at :
    (i j : ℕ) (text now : Text) (notes : List LocalNote)
    → get_elem? (edit_at i text now notes) j ≡ elim (get_elem? notes j) [
      | none ↦ none
      | some n ↦ some (if j == i then record n { note = text; edited_at = some now } else n)
    ]
unfolding edit_at
get_elem?-edit_at i j text now [] = refl
get_elem?-edit_at zero zero text now (n ∷ notes) = refl
get_elem?-edit_at zero (suc j) text now (n ∷ notes) = ground arith
get_elem?-edit_at (suc i) zero text now (n ∷ notes) = ground arith
get_elem?-edit_at (suc i) (suc j) text now (n ∷ notes) =
    ground (arith, get_elem?-edit_at i j text now notes)

-- Positions of a history after a removal.
pub get_elem?-remove_at {ℓ} :
    {A : Type ℓ} (i j : ℕ) (notes : List A)
    → get_elem? (remove_at i notes) j
      ≡ (if ltb j i then get_elem? notes j else get_elem? notes (suc j))
unfolding remove_at
get_elem?-remove_at i j [] = ground arith
get_elem?-remove_at zero j (n ∷ notes) = ground arith
get_elem?-remove_at (suc i) zero (n ∷ notes) = ground arith
get_elem?-remove_at (suc i) (suc j) (n ∷ notes) = ground (arith, get_elem?-remove_at i j notes)

module _ (store : ObjectStore Tracking (λ t. t.insee_code)) where
  open store use {State, get, put}

  -- The record holds the note that the screen showed at the position.
  pub record Confirms (s : State) (insee : Text) (index : ℕ) (expected : NoteSeen) : Type 0 where
    pub current : Tracking
    pub at : LocalNote
    pub stored : get s insee ≡ some current
    pub placed : get_elem? current.notes index ≡ some at
    pub seen : IsSeen at expected

  module _ (s : State) (insee : Text) (index : ℕ) (expected : NoteSeen)
      (revise : Tracking → List LocalNote → Tracking) where
    -- A revision is written exactly when the record confirms what the screen showed; a refusal
    -- leaves the store as it was.
    pub revise_note_lem :
        ((c : Confirms s insee index expected) × (revise_note store s insee index expected revise
            ≡ (put s (revise c.current c.current.notes), some (revise c.current c.current.notes))))
        ⊎ ((¬ Confirms s insee index expected)
            × (revise_note store s insee index expected revise ≡ (s, none)))
    unfolding revise_note revise_tracking decide_note
    revise_note_lem = elim (Option-cases (get s insee)) [
      | inl e ↦ inr (λ c. cc (c.stored, e), rw (e, revise_tracking, decide_note) refl)
      | inr (t, e) ↦ elim (Option-cases (get_elem? t.notes index)) [
        | inl e' ↦ inr (
          λ c. let same : c.current ≡ t = cc (c.stored, e) in cc (c.placed, e', same),
          rw (e, revise_tracking, decide_note, e') refl,
        )
        | inr (n, e') ↦ elim (Bool-cases (is_seen n expected)) [
          | inl h ↦ inl (
            record {
              current = t;
              at = n;
              stored = e;
              placed = e';
              seen = (is_seen_iff n expected).0 h;
            },
            rw (e, revise_tracking, decide_note, e', h) refl,
          )
          | inr h ↦ inr (
            λ c.
                let same : c.current ≡ t = cc (c.stored, e) in
                let same_note : c.at ≡ n = cc (c.placed, e', same) in
                cc ((is_seen_iff n expected).1 (rw same_note at c.seen), h),
            rw (e, revise_tracking, decide_note, e', h) refl,
          )
        ]
      ]
    ]

  -- What `editNote` does, on either outcome.
  abbrev pub EditOutcome : State → Text → ℕ → NoteSeen → Text → Text → Type 0
  EditOutcome s insee index expected text now =
      ((c : Confirms s insee index expected) × (t : Tracking) × (edit_note store s insee index
            expected text now
          ≡ (put s t, some t))
        × (t.insee_code ≡ c.current.insee_code)
        × (t.status ≡ c.current.status)
        × (t.updated_at ≡ c.current.updated_at)
        × ((j : ℕ)
            → get_elem? t.notes j ≡ elim (get_elem? c.current.notes j) [
              | none ↦ none
              | some n ↦
                  some (if j == index then record n { note = text; edited_at = some now } else n)
            ]))
      ⊎ ((¬ Confirms s insee index expected)
          × (edit_note store s insee index expected text now ≡ (s, none)))

  -- `editNote` corrects the words of the confirmed note and records when, and changes nothing else:
  -- neither the other notes, nor the status, the date and the key of the card. It is refused, with
  -- the store as it was, exactly when the record does not hold the note that was shown.
  pub edit_note_lem :
      (s : State) (insee : Text) (index : ℕ) (expected : NoteSeen) (text now : Text)
      → EditOutcome s insee index expected text now
  unfolding edit_note edited
  edit_note_lem s insee index expected text now =
      elim (revise_note_lem s insee index expected (edited index text now)) [
        | inl (c, e) ↦ inl (
          c,
          edited index text now c.current c.current.notes,
          e,
          refl,
          refl,
          refl,
          λ j. get_elem?-edit_at index j text now c.current.notes,
        )
        | inr h ↦ inr h
      ]

  -- What `deleteNote` does, on either outcome.
  abbrev pub DeleteOutcome : State → Text → ℕ → NoteSeen → Text → Type 0
  DeleteOutcome s insee index expected now =
      ((c : Confirms s insee index expected) × (t : Tracking) × (delete_note store s insee index
            expected now
          ≡ (put s t, some t))
        × (t.insee_code ≡ c.current.insee_code)
        × ((j : ℕ)
            → get_elem? t.notes j ≡ (
                if ltb j index
                then get_elem? c.current.notes j
                else get_elem? c.current.notes (suc j)))
        × (t.status ≡ head_status t.notes)
        × (t.updated_at ≡ elim (get_elem? t.notes 0) [ none ↦ dated now | some n ↦ dated n.ts ]))
      ⊎ ((¬ Confirms s insee index expected)
          × (delete_note store s insee index expected now ≡ (s, none)))

  -- `deleteNote` takes the confirmed note out of the history and keeps the others in their order;
  -- the card then has the status and the date of the first note left, or, with none left,
  -- `to_contact` and the present time. It is refused, with the store as it was, exactly when the
  -- record does not hold the note that was shown.
  pub delete_note_lem :
      (s : State) (insee : Text) (index : ℕ) (expected : NoteSeen) (now : Text)
      → DeleteOutcome s insee index expected now
  unfolding delete_note deleted
  delete_note_lem s insee index expected now =
      elim (revise_note_lem s insee index expected (deleted index now)) [
        | inl (c, e) ↦ inl (
          c,
          deleted index now c.current c.current.notes,
          e,
          refl,
          λ j. get_elem?-remove_at index j c.current.notes,
          refl,
          dated_at (remove_at index c.current.notes) now,
        )
        | inr h ↦ inr h
      ]
    where
      dated_at :
          (notes : List LocalNote) (now : Text)
          → ◌≡◌ {A = Date}
              (dated (head_ts notes now))
              (elim (get_elem? notes 0) [ none ↦ dated now | some n ↦ dated n.ts ])
      dated_at [] now = refl
      dated_at (n ∷ notes) now = refl
