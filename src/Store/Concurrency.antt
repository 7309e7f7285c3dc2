-- ===== src/Store/Concurrency.antt =====
-- web/src/db.ts: several tabs over one store. Each action is one transaction, so that they run one
-- after another in some order.
use paraphe.Common.{
  ℕ, zero, suc, true, false, none, some, List, [], ◌∷◌, map, Text, text_eq, text_eq_iff,
  text_eq_self, if◌then◌else◌, ◌≡◌, ◌≢◌, ◌==◌, refl, sym, ◌∙◌, arith, subst, Bool-cases, inl, inr,
  ap, All, get_elem?, Bool, ◌||◌, Option, any, ◌+◌,
}
use mathlib.Core.Option.{some-injective, none-ne-some}
use paraphe.Store.{LocalNote, Date, Tracking}
use paraphe.Store.ObjectStore.{ObjectStore, key_of_get}
use paraphe.Store.Card.{
  NoteSeen, edit_at, notes_of, edited, saved, revise_note, deleted, save_tracking, edit_note,
  delete_note, revise_tracking,
}
use paraphe.Store.Revise.{revise_note_lem, edit_note_lem}
use paraphe.Store.Backup.{is_held, import_tracking, write_tracking}
use paraphe.Store.Register.{Action, save, edit, delete, restore, erase, act, act_all}

-- When a contact took place and the status that it recorded.
abbrev pub Stamp : Type 0
Stamp = Text × Text

abbrev pub stamps : List LocalNote → List Stamp
stamps = map (λ n. (n.ts, n.status))

-- The contacts with the mayor `k` once the saves among the actions are put in front, the last first.
abbrev pub added : Text → List Action → List Stamp → List Stamp
added k [] acc = acc
added k (save insee status note card_time note_time ∷ actions) acc =
    added k actions (if text_eq insee k then (note_time, status) ∷ acc else acc)
added k (edit insee index expected text now ∷ actions) acc = added k actions acc
added k (delete insee index expected now ∷ actions) acc = added k actions acc
added k (restore merge existing ts ∷ actions) acc = added k actions acc
added k (erase ∷ actions) acc = added k actions acc

-- The action takes no note of the mayor `k` away: it is no deletion of one of theirs, no erasure, and
-- no import but one that merges and whose file has no record of theirs.
abbrev pub Spares : Text → Action → Type 0
Spares k (delete insee index expected now) = text_eq insee k ≡ false
Spares k (restore merge existing ts) =
    (merge ≡ true) × (any (λ t. text_eq t.insee_code k) ts ≡ false)
Spares k erase = ⊥
Spares k _ = Unit {0}

stamps-edit_at :
    (i : ℕ) (text now : Text) (notes : List LocalNote)
    → stamps (edit_at i text now notes) ≡ stamps notes
unfolding edit_at
stamps-edit_at i text now [] = refl
stamps-edit_at zero text now (n ∷ notes) = refl
stamps-edit_at (suc i) text now (n ∷ notes) =
    ap (◌∷◌ (n.ts, n.status)) (stamps-edit_at i text now notes)

-- The three fields of a line that a card shows.
abbrev pub shown : LocalNote → NoteSeen
shown n = record { ts = n.ts; status = n.status; note = n.note }

-- No two contacts of a history have the same time.
abbrev pub HasDistinctTimes : List LocalNote → Type 0
HasDistinctTimes [] = Unit {0}
HasDistinctTimes (n ∷ notes) = All (λ m. n.ts ≢ m.ts) notes × HasDistinctTimes notes

All-get_elem? :
    (P : LocalNote → Type 0) (notes : List LocalNote) (i : ℕ) (n : LocalNote)
    → All P notes
    → get_elem? notes i ≡ some n
    → P n
All-get_elem? P [] i n _ e = absurd (none-ne-some n e)
All-get_elem? P (m ∷ notes) zero n (p, _) e = subst P (some-injective m n e) p
All-get_elem? P (m ∷ notes) (suc i) n (_, ps) e = All-get_elem? P notes i n ps e

-- Where a line of the tail stood there is another one.
moved_ne :
    (notes : List LocalNote) (i : ℕ) (m n : LocalNote)
    → HasDistinctTimes notes
    → get_elem? notes i ≡ some m
    → get_elem? notes (suc i) ≡ some n
    → m.ts ≢ n.ts
moved_ne [] i m n _ e f = absurd (none-ne-some m e)
moved_ne (h ∷ notes) zero m n (new, _) e f =
    rw (ap (λ (x : LocalNote). x.ts) (sym (some-injective h m e)))
      (All-get_elem? (λ k. h.ts ≢ k.ts) notes 0 n new f)
moved_ne (h ∷ notes) (suc i) m n (_, times) e f = moved_ne notes i m n times e f

-- What an edit leaves at a position, by whether that is the one of the edit.
abbrev after_edit : Text → Text → Bool → Option LocalNote → Option LocalNote
after_edit text now b o = elim o [
  | none ↦ none
  | some m ↦ some (if b then record m { note = text; edited_at = some now } else m)
]

corrected :
    (text now : Text) (o o' : Option LocalNote) (b : Bool) (n : LocalNote)
    → o' ≡ after_edit text now b o
    → o ≡ some n
    → b ≡ true
    → o' ≡ some (record n { note = text; edited_at = some now })
corrected text now o o' b n h e q = h ∙ rw (e, q) refl

untouched :
    (text now : Text) (o o' : Option LocalNote) (b : Bool)
    → o' ≡ after_edit text now b o
    → b ≡ false
    → o' ≡ o
untouched text now none o' b h q = h
untouched text now (some m) o' b h q = h ∙ rw q refl

module _ (other_ge : Date → Date → Bool) (store : ObjectStore Tracking (λ t. t.insee_code)) where
  open store use {State, get, put, get-put, find-get_all}

  abbrev pub history : State → Text → List LocalNote
  history s k = notes_of (get s k)

  act-stamps_save :
      (s : State) (k insee status note card_time note_time : Text)
      → stamps (history (act other_ge store s (save insee status note card_time note_time)) k) ≡ (
          if text_eq insee k
          then (note_time, status) ∷ stamps (history s k)
          else stamps (history s k))
  unfolding act save_tracking revise_tracking saved
  act-stamps_save s k insee status note card_time note_time = ground (
    arith,
    get-put s (saved insee status note card_time note_time (get s insee)) k,
    text_eq_iff insee k,
  )

  -- A revision of a record in place, on the history of every mayor.
  revise_note-stamps :
      (s : State) (k insee : Text) (index : ℕ) (expected : NoteSeen)
      (revise : Tracking → List LocalNote → Tracking)
      → ((t : Tracking) → (revise t t.notes).insee_code ≡ t.insee_code)
      → ((t : Tracking) → text_eq insee k ≡ true → stamps (revise t t.notes).notes ≡ stamps t.notes)
      → stamps (history (revise_note store s insee index expected revise).0 k)
        ≡ stamps (history s k)
  revise_note-stamps s k insee index expected revise keeps_key keeps =
      elim (revise_note_lem store s insee index expected revise) [
        | inr (_, e) ↦ rw e
        | inl (c, e) ↦
            rw (e, get-put s (revise c.current c.current.notes) k, keeps_key c.current)
              (elim (Bool-cases (text_eq c.current.insee_code k)) [
                | inr b ↦ rw b
                | inl b ↦
                    let own : c.current.insee_code ≡ insee =
                      (text_eq_iff _ _).0 (key_of_get store s insee c.current c.stored) in
                    let here : insee ≡ k = sym own ∙ (text_eq_iff _ _).0 b in
                    rw (b, ← here, c.stored) (keeps c.current (rw here (text_eq_self k)))
              ])
      ]

  get-import_tracking :
      (existing : Text → Option Tracking) (ts : List Tracking) (s : State) (taken skipped : ℕ)
      (k : Text)
      → any (λ t. text_eq t.insee_code k) ts ≡ false
      → get (import_tracking other_ge store existing ts s taken skipped).0 k ≡ get s k
  unfolding import_tracking
  get-import_tracking existing [] s taken skipped k h = refl
  get-import_tracking existing (t ∷ ts) s taken skipped k h =
      let (new, rest) = none_of (text_eq t.insee_code k) (any (λ t. text_eq t.insee_code k) ts) h in
      elim (Bool-cases (is_held other_ge store (existing t.insee_code) t)) [
        | inl e ↦ rw e (get-import_tracking existing ts s taken (skipped + 1) k rest)
        | inr e ↦ rw e (
            get-import_tracking existing ts (put s t) (taken + 1) skipped k rest
            ∙ (get-put s t k ∙ rw new refl))
      ]
    where
      none_of : (a b : Bool) → (a || b) ≡ false → (a ≡ false) × (b ≡ false)
      none_of a b h = (ground arith, ground arith)

  act-added :
      (s : State) (k : Text) (a : Action)
      → Spares k a
      → stamps (history (act other_ge store s a) k) ≡ added k (a ∷ []) (stamps (history s k))
  unfolding act edit_note edited delete_note write_tracking
  act-added s k (save insee status note card_time note_time) _ =
      act-stamps_save s k insee status note card_time note_time
  act-added s k (edit insee index expected text now) _ =
      revise_note-stamps s k insee index expected (edited index text now) (λ t. refl)
        (λ t _. stamps-edit_at index text now t.notes)
  act-added s k (delete insee index expected now) spared =
      revise_note-stamps s k insee index expected (deleted index now) (λ t. refl) (λ t h. cc)
  act-added s k (restore true existing ts) (_, spared) =
      ap (λ o. stamps (notes_of o)) (get-import_tracking existing ts s 0 0 k spared)
  act-added s k (restore false existing ts) (merging, _) = cc
  act-added s k erase spared = absurd spared

  added-append :
      (k : Text) (a : Action) (actions : List Action) (acc : List Stamp)
      → added k (a ∷ actions) acc ≡ added k actions (added k (a ∷ []) acc)
  added-append k (save insee status note card_time note_time) actions acc = refl
  added-append k (edit insee index expected text now) actions acc = refl
  added-append k (delete insee index expected now) actions acc = refl
  added-append k (restore merge existing ts) actions acc = refl
  added-append k erase actions acc = refl

  -- No update is lost: however the saves, edits, deletions, imports and erasures of several tabs
  -- interleave, if none deletes a note of a mayor, none erases everything, and every import merges
  -- and has no record of this mayor, then their history holds every contact that was saved for them, the last first, and
  -- behind these all the contacts that it held before.
  pub act_all-added :
      (s : State) (k : Text) (actions : List Action)
      → All (Spares k) actions
      → stamps (history (act_all other_ge store s actions) k)
        ≡ added k actions (stamps (history s k))
  unfolding act_all
  act_all-added s k [] _ = refl
  act_all-added s k (a ∷ actions) (spared, all) =
      act_all-added (act other_ge store s a) k actions all
      ∙ (ap (added k actions) (act-added s k a spared)
          ∙ sym (added-append k a actions (stamps (history s k))))

  get-act_save :
      (s : State) (insee status note card_time note_time : Text)
      → get (act other_ge store s (save insee status note card_time note_time)) insee
        ≡ some (saved insee status note card_time note_time (get s insee))
  unfolding act save_tracking revise_tracking saved
  get-act_save s insee status note card_time note_time = rw (
    get-put s (saved insee status note card_time note_time (get s insee)) insee,
    text_eq_self insee,
  )

  -- The note that a save puts in front of the history.
  abbrev fresh : Text → Text → Text → LocalNote
  fresh status note note_time = record {
    ts = note_time;
    status = status;
    note = note;
    edited_at = none;
  }

  -- The history of a mayor after an edit: the line at the position has the new words, and every
  -- other line is as it was.
  abbrev pub IsCorrected : List LocalNote → ℕ → LocalNote → Text → Text → List LocalNote → Type 0
  IsCorrected notes index n text now notes' =
      (get_elem? notes' index ≡ some (record n { note = text; edited_at = some now }))
      × ((j : ℕ) → j == index ≡ false → get_elem? notes' j ≡ get_elem? notes j)

  -- What an edit does with a line that a card showed at a position, once another tab has saved a
  -- contact for the mayor: at the position it is refused and changes nothing, one further down it
  -- corrects that line alone.
  abbrev pub IsMoved :
      State → Text → Text → Text → Text → Text → Tracking → ℕ → LocalNote → Text → Text → Type 0
  IsMoved s insee status note card_time note_time current index n text now =
      let s' = act other_ge store s (save insee status note card_time note_time) in
      (edit_note store s' insee index (shown n) text now ≡ (s', none))
      × ((t : Tracking) × (edit_note store s' insee (suc index) (shown n) text now
            ≡ (put s' t, some t))
          × IsCorrected (fresh status note note_time ∷ current.notes) (suc index) n text now
              t.notes)

  refused_at :
      (s : State) (insee status note card_time note_time : Text) (current : Tracking) (index : ℕ)
      (n : LocalNote) (text now : Text)
      → get s insee ≡ some current
      → get_elem? current.notes index ≡ some n
      → HasDistinctTimes (fresh status note note_time ∷ current.notes)
      → edit_note store
          (act other_ge store s (save insee status note card_time note_time))
          insee
          index
          (shown n)
          text
          now
        ≡ (act other_ge store s (save insee status note card_time note_time), none)
  unfolding saved
  refused_at s insee status note card_time note_time current index n text now held placed times =
      let s' = act other_ge store s (save insee status note card_time note_time) in
      elim (edit_note_lem store s' insee index (shown n) text now) [
        | inr (_, e) ↦ e
        | inl accepted ↦
            let c = accepted.0 in
            let same : c.current ≡ saved insee status note card_time note_time (some current) =
              cc (c.stored, get-act_save s insee status note card_time note_time, held) in
            absurd (
              moved_ne (fresh status note note_time ∷ current.notes) index c.at n times
                (ap (λ (t : Tracking). get_elem? t.notes index) (sym same) ∙ c.placed) placed
                c.seen.0)
      ]

  -- An edit never reaches another line than the one that the card showed: if a card showed the line
  -- `n` of the history of a mayor at `index`, and another tab has saved a contact for this mayor
  -- since, the edit at `index` is refused and leaves the store as it is, while the edit one further
  -- down, where the line has moved to, is made, and changes no other line. No two contacts in the
  -- history after the save have the same time.
  pub edit_note-save_tracking :
      (s : State) (insee status note card_time note_time : Text) (current : Tracking) (index : ℕ)
      (n : LocalNote) (text now : Text)
      → get s insee ≡ some current
      → get_elem? current.notes index ≡ some n
      → HasDistinctTimes (fresh status note note_time ∷ current.notes)
      → IsMoved s insee status note card_time note_time current index n text now
  unfolding saved
  edit_note-save_tracking s insee status note card_time note_time current index n text now held
        placed times =
      let s' = act other_ge store s (save insee status note card_time note_time) in
      let entry = saved insee status note card_time note_time (some current) in
      let here : get s' insee ≡ some entry =
        get-act_save s insee status note card_time note_time
        ∙ ap (λ o. some (saved insee status note card_time note_time o)) held in
      (
        refused_at s insee status note card_time note_time current index n text now held placed
            times,
        elim (edit_note_lem store s' insee (suc index) (shown n) text now) [
          | inr (refused, _) ↦ absurd (
              refused (record {
                current = entry;
                at = n;
                stored = here;
                placed = placed;
                seen = (refl, refl, refl);
              }))
          | inl (c, t, e, _, _, _, lines) ↦
              let same : c.current ≡ entry = cc (c.stored, here) in
              let notes_at : (j : ℕ) → get_elem? c.current.notes j ≡ get_elem? entry.notes j =
                λ j. ap (λ (x : Tracking). get_elem? x.notes j) same in
              (
                t,
                e,
                (
                  corrected text now (get_elem? c.current.notes (suc index)) _ _ n
                      (lines (suc index)) (notes_at (suc index) ∙ placed) (ground arith),
                  λ j other.
                      untouched text now (get_elem? c.current.notes j) _ _ (lines j) other
                      ∙ notes_at j,
                ),
              )
        ],
      )
