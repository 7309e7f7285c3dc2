-- ===== src/Store/Restore.antt =====
-- web/src/db.ts: a backup restores what was exported.
use paraphe.Common.{
  ℕ, suc, ◌+◌, ◌-◌, Bool, true, false, Option, none, some, List, [], ◌∷◌, map, Text, text_eq,
  text_eq_iff, length, length-map, ◌≡◌, refl, sym, ◌∙◌, ap, arith, Bool-cases, inl, inr,
}
use paraphe.Store.{Date, Tracking}
use paraphe.Store.ObjectStore.{
  ObjectStore, find_key, HasDistinctKeys, find_last-find_key, put_all, get-put_all,
}
use paraphe.Store.Backup.{
  StoredMayor, Setting, ImportReport, raw_mayor, raw_tracking, valid_mayor, valid_tracking,
  valid_all, logo, is_held, usable_logo, Db, export_all, erase_all, import_mayors, import_tracking,
  import_settings, write_tracking, import_all, alone,
}

valid_all-raw_mayor :
    (ms : List StoredMayor)
    → find_key (λ m. m.insee_code) [] ms ≡ none
    → valid_all valid_mayor (map raw_mayor ms) ≡ ms
unfolding valid_all valid_mayor text_eq
valid_all-raw_mayor [] h = refl
valid_all-raw_mayor (m ∷ ms) h = ground (arith, valid_all-raw_mayor ms)

valid_all-raw_tracking :
    (ts : List Tracking)
    → find_key (λ t. t.insee_code) [] ts ≡ none
    → valid_all valid_tracking (map raw_tracking ts) ≡ ts
unfolding valid_all valid_tracking text_eq
valid_all-raw_tracking [] h = refl
valid_all-raw_tracking (t ∷ ts) h = ground (arith, valid_all-raw_tracking ts)

not_some_of_none {ℓ} : {A : Type ℓ} {o : Option A} {a : A} → o ≡ none → o ≡ some a → ⊥
not_some_of_none p q = cc

count_one : (n m : ℕ) → n + 1 + m ≡ n + suc m
count_one n m = omega arith

-- A store filled with the listing of another holds the same records.
get-restored :
    {R : Type 0} (key : R → Text) (store : ObjectStore R key) (s : store.State) (k : Text)
    → store.get (put_all store store.clear (store.get_all s)) k ≡ store.get s k
get-restored key store s k =
    get-put_all store store.clear (store.get_all s) k
    ∙ ground (
      arith,
      find_last-find_key key k (store.get_all s) (store.get_all-HasDistinctKeys s),
      store.find-get_all s k,
      store.get-clear k,
    )

module _ (Value : Type 0) (as_text : Value → Option Text)
    (M : ObjectStore StoredMayor (λ m. m.insee_code)) (T : ObjectStore Tracking (λ t. t.insee_code))
    (S : ObjectStore (Setting Value) (λ r. r.key)) where
  -- The same records can be read in both databases.
  pub record SameContents (db db' : Db Value as_text M T S) : Type 0 where
    pub same_mayors : (k : Text) → M.get db'.mayors k ≡ M.get db.mayors k
    pub same_tracking : (k : Text) → T.get db'.tracking k ≡ T.get db.tracking k
    pub same_settings : (k : Text) → S.get db'.settings k ≡ S.get db.settings k

  -- No record has the empty key, and the logo, if there is one, is inline.
  pub record IsExportable (db : Db Value as_text M T S) : Type 0 where
    pub mayors_keyed : M.get db.mayors [] ≡ none
    pub tracking_keyed : T.get db.tracking [] ≡ none
    pub inline_logo :
        (r : Setting Value)
        → S.get db.settings logo ≡ some r
        → usable_logo Value as_text M T S r.value ≡ true

  import_tracking-none :
      (other_ge : Date → Date → Bool) (existing : Text → Option Tracking) (ts : List Tracking)
      (s : T.State) (taken skipped : ℕ)
      → ((k : Text) → existing k ≡ none)
      → import_tracking other_ge T existing ts s taken skipped
        ≡ (put_all T s ts, taken + length ts, skipped)
  unfolding import_tracking put_all is_held
  import_tracking-none other_ge existing [] s taken skipped h =
      ap (λ (n : ℕ). (s, n, skipped)) (omega arith)
  import_tracking-none other_ge existing (e ∷ ts) s taken skipped h = rw (h e.insee_code) (
      import_tracking-none other_ge existing ts (T.put s e) (taken + 1) skipped h
      ∙ ap (λ (n : ℕ). (put_all T (T.put s e) ts, n, skipped)) (omega arith))

  counted :
      {x : S.State × ℕ × ℕ × ℕ} (s : S.State) (taken n skipped kept : ℕ)
      → x ≡ (s, taken + 1 + n, skipped, kept)
      → x ≡ (s, taken + suc n, skipped, kept)
  counted s taken n skipped kept h = h ∙ ap (λ (m : ℕ). (s, m, skipped, kept)) (count_one taken n)

  import_settings-all :
      (held : Text → Bool) (rs : List (Setting Value)) (s : S.State) (taken skipped kept : ℕ)
      → HasDistinctKeys (λ r. r.key) rs
      → ((r : Setting Value)
          → find_key (λ r. r.key) logo rs ≡ some r
          → usable_logo Value as_text M T S r.value ≡ true)
      → import_settings Value as_text M T S (λ n s. s) false held rs s taken skipped kept
        ≡ (put_all S s rs, taken + length rs, skipped, kept)
  unfolding import_settings put_all
  import_settings-all held [] s taken skipped kept d h =
      ap (λ (n : ℕ). (s, n, skipped, kept)) (omega arith)
  import_settings-all held (r ∷ rs) s taken skipped kept (new, d) h =
      elim (Bool-cases (text_eq r.key logo)) [
        | inl e ↦
            let usable : usable_logo Value as_text M T S r.value ≡ true = h r (rw e refl) in
            let absent : find_key (λ (r : Setting Value). r.key) logo rs ≡ none =
              rw ((text_eq_iff r.key logo).0 e) at new in
            rw (e, usable)
              (counted (put_all S (S.put s r) rs) taken (length rs) skipped kept (
                import_settings-all held rs (S.put s r) (taken + 1) skipped kept d
                  (λ r' e'. absurd (not_some_of_none absent e'))))
        | inr e ↦ rw e (
            counted (put_all S (S.put s r) rs) taken (length rs) skipped kept (
              import_settings-all held rs (S.put s r) (taken + 1) skipped kept d
                (λ r' e'. h r' (rw e e'))))
      ]

  import_mayors-put_all :
      (ms : List StoredMayor)
      → import_mayors Value as_text M T S false ms M.clear ≡ put_all M M.clear ms
  unfolding import_mayors
  import_mayors-put_all [] = unfold put_all in refl
  import_mayors-put_all (m ∷ ms) = refl

  -- The export of a database, imported after everything was erased, gives the same contents.
  abbrev pub IsRestored : (Date → Date → Bool) → Db Value as_text M T S → Text → Type 0
  IsRestored other_ge db now =
      (db' : Db Value as_text M T S) × (report : ImportReport) × (import_all Value as_text M T S
          other_ge alone (export_all Value as_text M T S db now) false
          (erase_all Value as_text M T S db)
        ≡ some (db', report))
      × SameContents db db'
      × (report.skipped ≡ 0)

  -- What is exported, erased and imported again is what there was, record for record, and nothing
  -- is skipped: if no record has the empty key, the logo, if there is one, is inline, and no other
  -- tab writes meanwhile.
  pub import_all-export_all :
      (other_ge : Date → Date → Bool) (db : Db Value as_text M T S) (now : Text)
      → IsExportable db
      → IsRestored other_ge db now
  unfolding import_all write_tracking export_all erase_all text_eq
  import_all-export_all other_ge db now ok =
      let ms = M.get_all db.mayors in
      let ts = T.get_all db.tracking in
      let rs = S.get_all db.settings in
      let dropped =
        length (map raw_mayor ms) - length ms + (length (map raw_tracking ts) - length ts) in
      (
        record {
          mayors = put_all M M.clear ms;
          tracking = put_all T T.clear ts;
          settings = put_all S S.clear rs;
        },
        record {
          mayors = length ms;
          tracking = 0 + length ts;
          skipped = dropped;
          settings = 0 + length rs;
          kept_settings = 0;
        },
        rw
            (
              valid_all-raw_mayor ms (M.find-get_all db.mayors [] ∙ ok.mayors_keyed),
              valid_all-raw_tracking ts (T.find-get_all db.tracking [] ∙ ok.tracking_keyed),
              import_tracking-none other_ge (λ _. none) ts T.clear 0 dropped (λ _. refl),
              import_settings-all _ rs S.clear 0 dropped 0 (S.get_all-HasDistinctKeys db.settings)
                  (λ r e. ok.inline_logo r (sym (S.find-get_all db.settings logo) ∙ e)),
              import_mayors-put_all ms,
            )
            refl,
        record {
          same_mayors = get-restored (λ m. m.insee_code) M db.mayors;
          same_tracking = get-restored (λ t. t.insee_code) T db.tracking;
          same_settings = get-restored (λ r. r.key) S db.settings;
        },
        omega (arith, length-map raw_mayor ms, length-map raw_tracking ts),
      )
