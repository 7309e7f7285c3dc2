-- ===== src/Store/Register.antt =====
-- web/src/db.ts: the history of a card is the register, and its status is the head of it.
use paraphe.Common.{
  ℕ, zero, suc, some, List, [], ◌∷◌, Text, text_eq, ◌≡◌, refl, sym, ◌∙◌, arith, Bool-cases, inl,
  inr, Bool, true, false, Option, ◌+◌, All,
}
use mathlib.Core.Option.{none-ne-some}
use paraphe.Store.{LocalNote, Date, Tracking}
use paraphe.Store.ObjectStore.{ObjectStore}
use paraphe.Store.Card.{
  NoteSeen, edit_at, head_status, edited, deleted, saved, revise_note, save_tracking, edit_note,
  delete_note, revise_tracking,
}
use paraphe.Store.Backup.{is_held, import_tracking, write_tracking}
use paraphe.Store.Revise.{revise_note_lem}

-- What a tab of the browser may do to the tracking, in one transaction each. An import writes the
-- records of its file, valid ones, against what it has read in a transaction before.
pub data Action : Type 0 where
  save : (insee status note card_time note_time : Text) → Action
  edit : (insee : Text) → ℕ → NoteSeen → (text now : Text) → Action
  delete : (insee : Text) → ℕ → NoteSeen → (now : Text) → Action
  restore : (merge : Bool) → (existing : Text → Option Tracking) → List Tracking → Action
  erase : Action

abbrev pub IsRegister : Tracking → Type 0
IsRegister t = t.status ≡ head_status t.notes

head_status-edit_at :
    (i : ℕ) (text now : Text) (notes : List LocalNote)
    → head_status (edit_at i text now notes) ≡ head_status notes
unfolding edit_at
head_status-edit_at i text now [] = refl
head_status-edit_at zero text now (n ∷ notes) = refl
head_status-edit_at (suc i) text now (n ∷ notes) = refl

-- The records that an import brings have the status that their notes say.
abbrev pub BringsRegisters : Action → Type 0
BringsRegisters (restore merge existing ts) = All IsRegister ts
BringsRegisters _ = Unit {0}

module _ (other_ge : Date → Date → Bool) (store : ObjectStore Tracking (λ t. t.insee_code)) where
  open store use {State, get, put, get-put, clear, get-clear}

  -- The store after an action; a refusal is the store as it was.
  unfoldable pub act : State → Action → State
  unfolding save_tracking edit_note delete_note write_tracking
  act s (save insee status note card_time note_time) =
      (save_tracking store s insee status note card_time note_time).0
  act s (edit insee index expected text now) = (edit_note store s insee index expected text now).0
  act s (delete insee index expected now) = (delete_note store s insee index expected now).0
  act s (restore merge existing ts) = (write_tracking other_ge store merge existing ts s 0).0
  act s erase = clear

  -- The actions of all the tabs, in the order in which their transactions run.
  unfoldable pub act_all : State → List Action → State
  unfolding act
  act_all s [] = s
  act_all s (a ∷ actions) = act_all (act s a) actions

  abbrev pub AllRegister : State → Type 0
  AllRegister s = (k : Text) (t : Tracking) → get s k ≡ some t → IsRegister t

  put-AllRegister :
      (s : State) (t : Tracking) → IsRegister t → AllRegister s → AllRegister (put s t)
  put-AllRegister s t h all k t' e = elim (Bool-cases (text_eq t.insee_code k)) [
    | inl b ↦ let same : t ≡ t' = ground (arith, get-put s t k) in rw (← same) h
    | inr b ↦ all k t' (ground (arith, get-put s t k))
  ]

  revise_note-AllRegister :
      (s : State) (insee : Text) (index : ℕ) (expected : NoteSeen)
      (revise : Tracking → List LocalNote → Tracking)
      → ((t : Tracking) → IsRegister t → IsRegister (revise t t.notes))
      → AllRegister s
      → AllRegister (revise_note store s insee index expected revise).0
  revise_note-AllRegister s insee index expected revise keeps all =
      elim (revise_note_lem store s insee index expected revise) [
        | inl (c, e) ↦
            rw e (put-AllRegister s _ (keeps c.current (all insee c.current c.stored)) all)
        | inr (_, e) ↦ rw e all
      ]

  import_tracking-AllRegister :
      (existing : Text → Option Tracking) (ts : List Tracking) (s : State) (taken skipped : ℕ)
      → All IsRegister ts
      → AllRegister s
      → AllRegister (import_tracking other_ge store existing ts s taken skipped).0
  unfolding import_tracking
  import_tracking-AllRegister existing [] s taken skipped _ all = all
  import_tracking-AllRegister existing (t ∷ ts) s taken skipped (h, hs) all =
      elim (Bool-cases (is_held other_ge store (existing t.insee_code) t)) [
        | inl e ↦ rw e (import_tracking-AllRegister existing ts s taken (skipped + 1) hs all)
        | inr e ↦ rw e (
            import_tracking-AllRegister existing ts (put s t) (taken + 1) skipped hs
              (put-AllRegister s t h all))
      ]

  clear-AllRegister : AllRegister clear
  clear-AllRegister k t e = absurd (none-ne-some t (sym (get-clear k) ∙ e))

  write_tracking-AllRegister :
      (merge : Bool) (existing : Text → Option Tracking) (ts : List Tracking) (s : State)
      → All IsRegister ts
      → AllRegister s
      → AllRegister (write_tracking other_ge store merge existing ts s 0).0
  unfolding write_tracking
  write_tracking-AllRegister true existing ts s h all =
      import_tracking-AllRegister existing ts s 0 0 h all
  write_tracking-AllRegister false existing ts s h all =
      import_tracking-AllRegister existing ts clear 0 0 h clear-AllRegister

  act-AllRegister :
      (s : State) (a : Action) → BringsRegisters a → AllRegister s → AllRegister (act s a)
  unfolding act edit_note delete_note edited deleted
  act-AllRegister s (save insee status note card_time note_time) _ all =
      unfold save_tracking revise_tracking saved in put-AllRegister s _ refl all
  act-AllRegister s (edit insee index expected text now) _ all =
      revise_note-AllRegister s insee index expected (edited index text now)
        (λ t h. h ∙ sym (head_status-edit_at index text now t.notes)) all
  act-AllRegister s (delete insee index expected now) _ all =
      revise_note-AllRegister s insee index expected (deleted index now) (λ t h. refl) all
  act-AllRegister s (restore merge existing ts) h all =
      write_tracking-AllRegister merge existing ts s h all
  act-AllRegister s erase _ all = clear-AllRegister

  -- However the saves, the edits, the deletions, the imports and the erasures of several tabs
  -- interleave, every card has the status that its history says: that of its first note, or
  -- `to_contact` if it has none. Every card at the start and every record that an import brings has
  -- it; that the code does not check it of a file is a condition here.
  pub act_all-AllRegister :
      (s : State) (actions : List Action)
      → All BringsRegisters actions
      → AllRegister s
      → AllRegister (act_all s actions)
  unfolding act_all
  act_all-AllRegister s [] _ all = all
  act_all-AllRegister s (a ∷ actions) (h, hs) all =
      act_all-AllRegister (act s a) actions hs (act-AllRegister s a h all)
