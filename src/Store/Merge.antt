-- ===== src/Store/Merge.antt =====
-- web/src/db.ts: an import that merges keeps the work that is held, and accounts for every entry.
use paraphe.Common.{
  ℕ, ◌+◌, ◌-◌, ◌≤◌, Bool, true, false, not, ◌||◌, ◌&&◌, Option, none, some, List, [], ◌∷◌, Text,
  text_eq, text_eq_iff, if◌then◌else◌, length, ◌≡◌, refl, sym, ◌∙◌, ap, arith, Bool-cases,
  Option-cases, inl, inr, any, or_else, All,
}
use paraphe.Store.{Date, Tracking}
use paraphe.Store.ObjectStore.{ObjectStore, find_key}
use paraphe.Store.Backup.{
  StoredMayor, Setting, RawTracking, Backup, ImportReport, valid_mayor, valid_tracking, valid_all,
  text_ge, logo, date_text, date_ge, Elsewhere, alone, write_tracking, is_held, usable_logo, Db,
  import_tracking, import_settings, import_all,
}

text_ge_self : (s : Text) → text_ge s s ≡ true
unfolding text_ge
text_ge_self [] = refl
text_ge_self (c ∷ s) = ground (arith, text_ge_self s)

text_ge_total : (s t : Text) → text_ge s t ≡ false → text_ge t s ≡ true
unfolding text_ge
text_ge_total [] t h = refl
text_ge_total (c ∷ s) [] h = absurd (ground arith)
text_ge_total (c ∷ s) (d ∷ t) h = ground (arith, text_ge_total s t)

length-valid_all {ℓ κ} :
    {A : Type ℓ} {B : Type κ} (valid : A → Option B) (xs : List A)
    → length (valid_all valid xs) ≤ length xs
unfolding valid_all
length-valid_all valid [] = omega arith
length-valid_all valid (x ∷ xs) = elim (Option-cases (valid x)) [
  | inl e ↦ ground (arith, length-valid_all valid xs)
  | inr (y, e) ↦ ground (arith, length-valid_all valid xs)
]

any_of_find {ℓ} :
    {R : Type ℓ} (key : R → Text) (k : Text) (rs : List R) (r : R)
    → find_key key k rs ≡ some r
    → any (λ r. text_eq (key r) k) rs ≡ true
any_of_find key k [] r h = cc
any_of_find key k (r' ∷ rs) r h = ground (arith, any_of_find key k rs r)

true_and_false : {b : Bool} → b ≡ true → b ≡ false → ⊥
true_and_false p q = cc

-- The date is a text, or missing.
abbrev pub IsText : Date → Type 0
IsText d = (t : Text) × (date_text d ≡ some t)

-- The date of a record as a text, empty where it has none.
abbrev pub date : Tracking → Text
date t = or_else (date_text t.updated_at) []

date_ge-text :
    (other_ge : Date → Date → Bool) (a b : Date)
    → IsText a
    → IsText b
    → date_ge other_ge a b ≡ text_ge (or_else (date_text a) []) (or_else (date_text b) [])
unfolding date_ge
date_ge-text other_ge a b (s, e) (t, f) = rw (e, f, date_ge) refl

IsText-valid_tracking :
    (raw : RawTracking) (t : Tracking)
    → IsText raw.updated_at
    → valid_tracking raw ≡ some t
    → IsText t.updated_at
unfolding valid_tracking
IsText-valid_tracking raw t (d, h) e = (d, ap date_text (kept raw t e) ∙ h)
  where
    kept :
        (raw : RawTracking) (t : Tracking)
        → valid_tracking raw ≡ some t
        → t.updated_at ≡ raw.updated_at
    kept raw t e = ground arith

All-valid_all {ℓ κ} :
    {A : Type ℓ} {B : Type κ} (P : A → Type 0) (Q : B → Type 0) (valid : A → Option B) (xs : List A)
    → ((x : A) (y : B) → P x → valid x ≡ some y → Q y)
    → All P xs
    → All Q (valid_all valid xs)
unfolding valid_all
All-valid_all P Q valid [] f h = tt
All-valid_all P Q valid (x ∷ xs) f (p, h) = elim (Option-cases (valid x)) [
  | inl e ↦ rw (e, All) (All-valid_all P Q valid xs f h)
  | inr (y, e) ↦ rw (e, All) (f x y p e, All-valid_all P Q valid xs f h)
]

module _ (other_ge : Date → Date → Bool) (T : ObjectStore Tracking (λ t. t.insee_code)) where
  -- The store holds a record at least as recent under every key that was held.
  abbrev IsAtLeast : (Text → Option Tracking) → T.State → Type 0
  IsAtLeast existing s =
      (k : Text) (t : Tracking)
      → existing k ≡ some t
      → (t' : Tracking) × (T.get s k ≡ some t') × (text_ge (date t') (date t) ≡ true)

  put-IsAtLeast :
      (existing : Text → Option Tracking) (e : Tracking) (s : T.State)
      → is_held other_ge T (existing e.insee_code) e ≡ false
      → ((k : Text) (t : Tracking) → existing k ≡ some t → IsText t.updated_at)
      → IsText e.updated_at
      → IsAtLeast existing s
      → IsAtLeast existing (T.put s e)
  unfolding is_held
  put-IsAtLeast existing e s h texts text all k t held =
      elim (Bool-cases (text_eq e.insee_code k)) [
        | inr b ↦ rw (T.get-put s e k, b) (all k t held)
        | inl b ↦
            let own : existing e.insee_code ≡ some t =
              ap existing ((text_eq_iff e.insee_code k).0 b) ∙ held in
            (
              e,
              rw (T.get-put s e k, b) refl,
              text_ge_total (date t) (date e) (
                  sym (
                    date_ge-text other_ge t.updated_at e.updated_at (texts e.insee_code t own) text)
                  ∙ (rw own at h)),
            )
      ]

  import_tracking-IsAtLeast :
      (existing : Text → Option Tracking) (ts : List Tracking) (s : T.State) (taken skipped : ℕ)
      → ((k : Text) (t : Tracking) → existing k ≡ some t → IsText t.updated_at)
      → All (λ e. IsText e.updated_at) ts
      → IsAtLeast existing s
      → IsAtLeast existing (import_tracking other_ge T existing ts s taken skipped).0
  unfolding import_tracking
  import_tracking-IsAtLeast existing [] s taken skipped texts _ all = all
  import_tracking-IsAtLeast existing (e ∷ ts) s taken skipped texts (text, dates) all =
      elim (Bool-cases (is_held other_ge T (existing e.insee_code) e)) [
        | inl h ↦ rw h (import_tracking-IsAtLeast existing ts s taken (skipped + 1) texts dates all)
        | inr h ↦ rw h (
            import_tracking-IsAtLeast existing ts (T.put s e) (taken + 1) skipped texts dates
              (put-IsAtLeast existing e s h texts text all))
      ]

  import_tracking_count :
      (existing : Text → Option Tracking) (ts : List Tracking) (s : T.State) (taken skipped : ℕ)
      → (import_tracking other_ge T existing ts s taken skipped).1
          + (import_tracking other_ge T existing ts s taken skipped).2
        ≡ taken + skipped + length ts
  unfolding import_tracking
  import_tracking_count existing [] s taken skipped = omega arith
  import_tracking_count existing (e ∷ ts) s taken skipped =
      elim (Bool-cases (is_held other_ge T (existing e.insee_code) e)) [
        | inl h ↦ rw h (omega (arith, import_tracking_count existing ts s taken (skipped + 1)))
        | inr h ↦
            rw h (omega (arith, import_tracking_count existing ts (T.put s e) (taken + 1) skipped))
      ]

module _ (Value : Type 0) (as_text : Value → Option Text)
    (M : ObjectStore StoredMayor (λ m. m.insee_code)) (T : ObjectStore Tracking (λ t. t.insee_code))
    (S : ObjectStore (Setting Value) (λ r. r.key)) where
  import_settings_count :
      (elsewhere : ℕ → S.State → S.State) (merge : Bool) (held : Text → Bool)
      (rs : List (Setting Value)) (s : S.State) (taken skipped kept : ℕ)
      → (import_settings Value as_text M T S elsewhere merge held rs s taken skipped kept).1
          + (import_settings Value as_text M T S elsewhere merge held rs s taken skipped kept).2
          + (import_settings Value as_text M T S elsewhere merge held rs s taken skipped kept).3
        ≡ taken + skipped + kept + length rs
  unfolding import_settings
  import_settings_count elsewhere merge held [] s taken skipped kept = omega arith
  import_settings_count elsewhere merge held (r ∷ rs) s taken skipped kept =
      elim (Bool-cases (text_eq r.key logo && not (usable_logo Value as_text M T S r.value))) [
        | inl h ↦ rw h (
            omega (arith, import_settings_count elsewhere merge held rs s taken (skipped + 1) kept))
        | inr h ↦ rw h (elim (Bool-cases (not merge || not (held r.key))) [
          | inl p ↦ rw p (
              omega (
                arith,
                import_settings_count elsewhere merge held rs (S.put (elsewhere taken s) r)
                    (taken + 1) skipped kept,
              ))
          | inr p ↦ rw p (
              omega
                (arith, import_settings_count elsewhere merge held rs s taken skipped (kept + 1)))
        ])
      ]

  get-put_other :
      (held : Text → Bool) (s : S.State) (r : Setting Value) (k : Text)
      → held k ≡ true
      → held r.key ≡ false
      → S.get (S.put s r) k ≡ S.get s k
  get-put_other held s r k h p = elim (Bool-cases (text_eq r.key k)) [
    | inr b ↦ rw (S.get-put s r k, b) refl
    | inl b ↦ absurd (true_and_false h (sym (ap held ((text_eq_iff r.key k).0 b)) ∙ p))
  ]

  import_settings-get :
      (held : Text → Bool) (rs : List (Setting Value)) (s : S.State) (taken skipped kept : ℕ)
      (k : Text)
      → held k ≡ true
      → S.get (import_settings Value as_text M T S (λ n s. s) true held rs s taken skipped kept).0 k
        ≡ S.get s k
  unfolding import_settings
  import_settings-get held [] s taken skipped kept k h = refl
  import_settings-get held (r ∷ rs) s taken skipped kept k h =
      elim (Bool-cases (text_eq r.key logo && not (usable_logo Value as_text M T S r.value))) [
        | inl e ↦ rw e (import_settings-get held rs s taken (skipped + 1) kept k h)
        | inr e ↦ rw e (elim (Bool-cases (held r.key)) [
          | inl p ↦ rw p (import_settings-get held rs s taken skipped (kept + 1) k h)
          | inr p ↦ rw p (
              import_settings-get held rs (S.put s r) (taken + 1) skipped kept k h
              ∙ get-put_other held s r k h p)
        ])
      ]

  -- What the two loops of an import run on.
  abbrev existing_of : Bool → Db Value as_text M T S → Text → Option Tracking
  existing_of merge db k = if merge then T.get db.tracking k else none

  abbrev held_of : Db Value as_text M T S → Text → Bool
  held_of db k = any (λ r. text_eq r.key k) (S.get_all db.settings)

  abbrev dropped_of : Backup Value → ℕ
  dropped_of file =
      length file.mayors
      - length (valid_all valid_mayor file.mayors)
      + (length file.tracking - length (valid_all valid_tracking file.tracking))

  -- Every tracking record of the first database is in the second or has a successor there that is
  -- not dated earlier, and every setting is there as it was.
  abbrev pub KeepsHeld : Db Value as_text M T S → Db Value as_text M T S → Type 0
  KeepsHeld db db' =
      ((k : Text) (t : Tracking)
        → T.get db.tracking k ≡ some t
        → (t' : Tracking) × (T.get db'.tracking k ≡ some t') × (text_ge (date t') (date t) ≡ true))
      × ((k : Text) (r : Setting Value)
          → S.get db.settings k ≡ some r
          → S.get db'.settings k ≡ some r)

  -- The dates of the records in the database and in the file are texts, or missing.
  abbrev pub HasTextDates : Db Value as_text M T S → Backup Value → Type 0
  HasTextDates db file =
      ((k : Text) (t : Tracking) → T.get db.tracking k ≡ some t → IsText t.updated_at)
      × All (λ (e : RawTracking). IsText e.updated_at) file.tracking

  module _ (other_ge : Date → Date → Bool) (elsewhere : Elsewhere T.State S.State) where
    abbrev tracking_loop : Backup Value → Bool → Db Value as_text M T S → T.State × ℕ × ℕ
    tracking_loop file merge db =
        import_tracking other_ge T (existing_of merge db) (valid_all valid_tracking file.tracking)
          (if merge then elsewhere.tracking db.tracking else T.clear) 0 (dropped_of file)

    abbrev settings_loop : Backup Value → Bool → Db Value as_text M T S → S.State × ℕ × ℕ × ℕ
    settings_loop file merge db =
        import_settings Value as_text M T S elsewhere.settings merge (held_of db) file.settings
          db.settings 0 (tracking_loop file merge db).2 0

    record IsImported (file : Backup Value) (merge : Bool) (db db' : Db Value as_text M T S)
        (report : ImportReport) : Type 0 where
      tracking : db'.tracking ≡ (tracking_loop file merge db).0
      settings : db'.settings ≡ (settings_loop file merge db).0
      n_mayors : report.mayors ≡ length (valid_all valid_mayor file.mayors)
      n_tracking : report.tracking ≡ (tracking_loop file merge db).1
      n_settings : report.settings ≡ (settings_loop file merge db).1
      n_skipped : report.skipped ≡ (settings_loop file merge db).2
      n_kept : report.kept_settings ≡ (settings_loop file merge db).3

    import_all-IsImported :
        (file : Backup Value) (merge : Bool) (db db' : Db Value as_text M T S)
        (report : ImportReport)
        → import_all Value as_text M T S other_ge elsewhere file merge db ≡ some (db', report)
        → IsImported file merge db db' report
    unfolding import_all write_tracking
    import_all-IsImported file merge db db' report h = ground arith

    -- Every entry of the file is accounted for once, whatever other tabs do meanwhile: as a mayor, a
    -- record or a setting that was written, as skipped, or as a setting that was kept.
    pub import_all_count :
        (file : Backup Value) (merge : Bool) (db db' : Db Value as_text M T S)
        (report : ImportReport)
        → import_all Value as_text M T S other_ge elsewhere file merge db ≡ some (db', report)
        → report.mayors + report.tracking + report.skipped + report.settings + report.kept_settings
          ≡ length file.mayors + length file.tracking + length file.settings
    import_all_count file merge db db' report h =
        let done = import_all-IsImported file merge db db' report h in
        omega (
          arith,
          done.n_mayors,
          done.n_tracking,
          done.n_settings,
          done.n_skipped,
          done.n_kept,
          length-valid_all valid_mayor file.mayors,
          length-valid_all valid_tracking file.tracking,
          import_tracking_count other_ge T (existing_of merge db)
              (valid_all valid_tracking file.tracking)
              (if merge then elsewhere.tracking db.tracking else T.clear) 0 (dropped_of file),
          import_settings_count elsewhere.settings merge (held_of db) file.settings db.settings 0
              (tracking_loop file merge db).2 0,
        )

  -- A merge keeps what is held, if no other tab writes while it runs and no `updated_at` in the
  -- database or in the file is of another type than a text: no tracking record is lost or replaced
  -- by one with an earlier date, and no setting that is held changes.
  pub import_all_merge :
      (other_ge : Date → Date → Bool) (file : Backup Value) (db db' : Db Value as_text M T S)
      (report : ImportReport)
      → HasTextDates db file
      → import_all Value as_text M T S other_ge alone file true db ≡ some (db', report)
      → KeepsHeld db db'
  import_all_merge other_ge file db db' report (texts, dates) h =
      let done = import_all-IsImported other_ge alone file true db db' report h in
      (
        rw done.tracking (
            import_tracking-IsAtLeast other_ge T (existing_of true db)
              (valid_all valid_tracking file.tracking) db.tracking 0 (dropped_of file) texts
              (All-valid_all (λ (e : RawTracking). IsText e.updated_at)
                (λ (t : Tracking). IsText t.updated_at) valid_tracking file.tracking
                IsText-valid_tracking dates)
              (λ k t e. (t, e, text_ge_self (date t)))),
        λ k r e.
            ap (λ s. S.get s k) done.settings
            ∙ (import_settings-get (held_of db) file.settings db.settings 0 _ 0 k (
                  any_of_find (λ r. r.key) k (S.get_all db.settings) r
                    (S.find-get_all db.settings k ∙ e))
                ∙ e),
      )
