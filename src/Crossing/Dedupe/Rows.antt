-- ===== src/Crossing/Dedupe/Rows.antt =====
-- outils/matching.ts: what `dedupeByInsee` keeps of its rows.
use paraphe.Common.{
  ℕ, suc, ◌+◌, false, Option, none, some, List, [], ◌∷◌, map, text_eq, length, length-map,
  bind-some, passed-some, lookup, insert, length-insert, length-sort_by, ◌≡◌, refl, sym, ap,
  passed-false, arith,
}
use mathlib.Core.Option.{some-injective}
use paraphe.Texte.Unicode.{Unicode}
use paraphe.Crossing.Entities.{Target}
use paraphe.Crossing.Identity.{Verdict, compare_first_names, is_different}
use paraphe.Crossing.Dedupe.{Merging, file_row, file_rows, merge, dedupe_by_insee, target_before}

module _ (unicode : Unicode) where
  -- A row that is filed under a code which is taken agrees with the row that has it.
  abbrev pub Filed : Merging → Merging → Target → Option Target → Type 0
  Filed m m' r none = m' ≡ record m { by_insee = insert text_eq m.by_insee r.rne.insee r }
  Filed m m' r (some target) =
      ((v : Verdict) × (compare_first_names unicode target.person.first_name r.person.first_name
          ≡ some v)
        × (is_different v ≡ false))
      × (m' ≡ record {
        by_insee = insert text_eq m.by_insee r.rne.insee (merge target r);
        merged_spellings = m.merged_spellings + 1;
      })

  pub file_row-Filed :
      (m m' : Merging) (r : Target) (found : Option Target)
      → file_row unicode m r found ≡ some m'
      → Filed m m' r found
  unfolding file_row
  file_row-Filed m m' r none h = sym (some-injective _ _ h)
  file_row-Filed m m' r (some target) h =
      let (v, e, k) = bind-some _ _ _ h in
      (
        (v, e, passed-false (is_different v) _ _ k),
        sym (some-injective _ _ (passed-some (is_different v) _ _ k)),
      )

  Filed-length :
      (m m' : Merging) (r : Target) (found : Option Target)
      → lookup text_eq m.by_insee r.rne.insee ≡ found
      → Filed m m' r found
      → length m'.by_insee + m'.merged_spellings ≡ suc (length m.by_insee + m.merged_spellings)
  Filed-length m m' r none e f =
      rw f (rw (length-insert text_eq m.by_insee r.rne.insee r, e) (omega arith))
  Filed-length m m' r (some target) e (_, f) =
      rw f (rw (length-insert text_eq m.by_insee r.rne.insee (merge target r), e) (omega arith))

  file_rows-length :
      (rows : List Target) (m m' : Merging)
      → file_rows unicode rows m ≡ some m'
      → length m'.by_insee + m'.merged_spellings
        ≡ length rows + (length m.by_insee + m.merged_spellings)
  unfolding file_rows
  file_rows-length [] m m' h = rw (some-injective _ _ h) (omega arith)
  file_rows-length (r ∷ rows) m m' h =
      let (n, e, k) = bind-some _ _ _ h in
      let filed = Filed-length m n r _ refl (file_row-Filed m n r _ e) in
      omega (arith, filed, file_rows-length rows n m' k)

  -- The check that the report prints: if `dedupeByInsee` returns, the rows that it keeps and the
  -- spellings that it has merged are as many as the rows it was given.
  pub dedupe_by_insee-accounts :
      (rows kept : List Target) (merged : ℕ)
      → dedupe_by_insee unicode rows ≡ some (kept, merged)
      → length kept + merged ≡ length rows
  unfolding dedupe_by_insee
  dedupe_by_insee-accounts rows kept merged h =
      let (m, e, k) = bind-some _ _ _ h in
      let pair = some-injective _ _ k in
      let counted = file_rows-length rows _ m e in
      rw (sym (ap (λ (x, y). length x + y) pair)) (
        rw
          (
            length-sort_by target_before (map (λ (k, t). t) m.by_insee),
            length-map (λ (k, t). t) m.by_insee,
          )
          (omega (arith, counted)))
