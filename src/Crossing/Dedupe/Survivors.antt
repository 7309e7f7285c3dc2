-- ===== src/Crossing/Dedupe/Survivors.antt =====
-- outils/matching.ts: the rows that `dedupeByInsee` keeps, and those that it refuses.
use paraphe.Common.{
  ℕ, ◌≤◌, Bool, true, false, Option, none, some, List, [], ◌∷◌, ◌++◌, map, Text, text_eq, keep, any,
  length, if◌then◌else◌, bind-some, ◌>>=◌, lookup, sort_by, length-keep-sort_by, Exists,
  Exists-sort_by, All, ◌≡◌, refl, sym, ap, subst, arith, inl, inr, Option-cases, Bool-cases, ◌∙◌,
}
use mathlib.Core.Option.{some-injective, none-ne-some}
use paraphe.Texte.Unicode.{Unicode}
use paraphe.Crossing.Entities.{Target}
use paraphe.Crossing.Identity.{Verdict, different, compare_first_names, is_different}
use paraphe.Crossing.Dedupe.{
  Merging, file_row, file_rows, dedupe_by_insee, target_before, confidence_rank,
}
use paraphe.Crossing.Dedupe.Rows.{file_row-Filed}
use paraphe.Crossing.Dedupe.Codes.{
  has_code, Keyed, is_some, lookup-Keyed, count-Keyed, HasRow, lookup-insert_self, file_rows-Kept,
}

not_both : {b : Bool} → true ≡ b → b ≡ false → ⊥
not_both p q = cc

module _ (unicode : Unicode) where
  -- If `dedupeByInsee` returns, it keeps exactly one row for each INSEE code that a row has, and
  -- none for any other code.
  pub dedupe_by_insee-codes :
      (rows kept : List Target) (merged : ℕ) (k : Text)
      → dedupe_by_insee unicode rows ≡ some (kept, merged)
      → length (keep (has_code k) kept) ≡ (if any (has_code k) rows then 1 else 0)
  unfolding dedupe_by_insee lookup
  dedupe_by_insee-codes rows kept merged k h =
      let (m, e, r) = bind-some _ _ _ h in
      let pair = some-injective _ _ r in
      let all_kept = file_rows-Kept unicode rows _ m e in
      rw (sym (ap (λ (x, y). x) pair)) (
        rw
          (
            length-keep-sort_by target_before (has_code k) (map (λ (k, t). t) m.by_insee),
            count-Keyed m.by_insee k (all_kept.keyed tt),
            all_kept.codes k,
          )
          (ground arith))

  Exists-lookup :
      (P : Target → Type 0) (m : List (Text × Target)) (k : Text) (t : Target)
      → lookup text_eq m k ≡ some t
      → P t
      → Exists P (map (λ (k, t). t) m)
  unfolding lookup
  Exists-lookup P [] k t h p = absurd (none-ne-some t h)
  Exists-lookup P ((j, u) ∷ m) k t h p = elim (Bool-cases (text_eq j k)) [
    | inl e ↦ inl (
        subst P
          (sym (
            some-injective u t
              (subst (λ b. (if b then some u else lookup text_eq m k) ≡ some t) e h)))
          p)
    | inr e ↦ inr (
        Exists-lookup P m k t (subst (λ b. (if b then some u else lookup text_eq m k) ≡ some t) e h)
          p)
  ]

  -- What a kept row has to be for a row that was given.
  abbrev pub StandsFor : Target → Target → Type 0
  StandsFor r t =
      (t.rne.insee ≡ r.rne.insee)
      × ((v : Verdict) × (compare_first_names unicode t.person.first_name r.person.first_name
            ≡ some v)
          × (is_different v ≡ false))
      × confidence_rank t.conf ≤ confidence_rank r.conf

  All-StandsFor :
      (rows : List Target) (m : List (Text × Target))
      → Keyed m
      → All (HasRow unicode m) rows
      → All (λ r. Exists (StandsFor r) (sort_by target_before (map (λ (k, t). t) m))) rows
  All-StandsFor [] m h _ = tt
  All-StandsFor (r ∷ rows) m h ((t, e, v, le), rest) = (
    Exists-sort_by target_before (StandsFor r) _
        (Exists-lookup (StandsFor r) m r.rne.insee t e (lookup-Keyed m r.rne.insee t h e, v, le)),
    All-StandsFor rows m h rest,
  )

  -- If `dedupeByInsee` returns, every row has one that stands for it: a kept row of the same INSEE
  -- code, whose first name does not contradict that of the row, and whose match is established at
  -- least as well.
  pub dedupe_by_insee-StandsFor :
      (rows kept : List Target) (merged : ℕ)
      → dedupe_by_insee unicode rows ≡ some (kept, merged)
      → All (λ r. Exists (StandsFor r) kept) rows
  unfolding dedupe_by_insee
  dedupe_by_insee-StandsFor rows kept merged h =
      let (m, e, r) = bind-some _ _ _ h in
      let pair = some-injective _ _ r in
      let all_kept = file_rows-Kept unicode rows _ m e in
      rw (sym (ap (λ (x, y). x) pair))
        (All-StandsFor rows m.by_insee (all_kept.keyed tt) all_kept.has_rows)

  file_rows-append :
      (rows rest : List Target) (m m' : Merging)
      → file_rows unicode (rows ++ rest) m ≡ some m'
      → (n : Merging) × (file_rows unicode rows m ≡ some n) × (file_rows unicode rest n ≡ some m')
  unfolding file_rows
  file_rows-append [] rest m m' h = (m, refl, h)
  file_rows-append (r ∷ rows) rest m m' h =
      let (n, e, k) =
        bind-some (file_row unicode m r (lookup text_eq m.by_insee r.rne.insee)) _ _ h in
      let (n', e', k') = file_rows-append rows rest n m' k in
      (n', ap (λ o. o >>= file_rows unicode rows) e ∙ e', k')

  -- A row of the same INSEE code as `r` whose first name contradicts that of `r`.
  abbrev pub Contradicts : Target → Target → Type 0
  Contradicts r s =
      (s.rne.insee ≡ r.rne.insee)
      × (compare_first_names unicode r.person.first_name s.person.first_name ≡ some different)

  contradicted :
      (rest : List Target) (m : List (Text × Target)) (r t : Target)
      → All (HasRow unicode m) rest
      → Exists (Contradicts r) rest
      → lookup text_eq m r.rne.insee ≡ some t
      → t.person.first_name ≡ r.person.first_name
      → ⊥
  contradicted [] m r t _ x h q = elim x [ ]
  contradicted (s ∷ rest) m r t ((u, e, (v, f, g), _), _) (inl (p, c)) h q =
      let same : u ≡ t = some-injective u t (sym e ∙ ap (lookup text_eq m) p ∙ h) in
      let names : u.person.first_name ≡ r.person.first_name =
        ap (λ x. x.person.first_name) same ∙ q in
      let verdict =
        some-injective different v
          (sym c ∙ ap (λ x. compare_first_names unicode x s.person.first_name) (sym names) ∙ f) in
      not_both (ap is_different verdict) g
  contradicted (s ∷ rest) m r t (_, hs) (inr x) h q = contradicted rest m r t hs x h q

  none_of_is_some : (o : Option Target) → is_some o ≡ false → o ≡ none
  none_of_is_some none h = refl
  none_of_is_some (some t) h = cc

  refused :
      (rows rest : List Target) (r : Target) (m : Merging)
      → any (has_code r.rne.insee) rows ≡ false
      → Exists (Contradicts r) rest
      → file_rows unicode (rows ++ r ∷ rest) (record { by_insee = []; merged_spellings = 0 })
        ≡ some m
      → ⊥
  unfolding file_rows lookup
  refused rows rest r m fresh x h =
      let (n, a, b) = file_rows-append rows (r ∷ rest) _ m h in
      let (n', c, d) =
        bind-some (file_row unicode n r (lookup text_eq n.by_insee r.rne.insee)) _ _ b in
      let before = file_rows-Kept unicode rows _ n a in
      let missing =
        none_of_is_some (lookup text_eq n.by_insee r.rne.insee)
          (before.codes r.rne.insee ∙ rw fresh refl) in
      let filed =
        file_row-Filed unicode n n' r none
          (subst (λ o. file_row unicode n r o ≡ some n') missing c) in
      let after = file_rows-Kept unicode rest n' m d in
      let (t, e, (q, _)) = after.grows r.rne.insee r (
        subst (λ x. lookup text_eq x.by_insee r.rne.insee ≡ some r) (sym filed)
          (lookup-insert_self n.by_insee r.rne.insee r)) in
      contradicted rest m.by_insee r t after.has_rows x e q

  -- `dedupeByInsee` gives an error if two rows of one INSEE code have first names that contradict
  -- each other, the first of them being the first row of this code.
  pub dedupe_by_insee-refuses :
      (rows rest : List Target) (r : Target)
      → any (has_code r.rne.insee) rows ≡ false
      → Exists (Contradicts r) rest
      → dedupe_by_insee unicode (rows ++ r ∷ rest) ≡ none
  unfolding dedupe_by_insee
  dedupe_by_insee-refuses rows rest r fresh x =
      elim (Option-cases
        (file_rows unicode (rows ++ r ∷ rest) (record { by_insee = []; merged_spellings = 0 }))) [
          | inl e ↦ rw e refl
          | inr (m, e) ↦ absurd (refused rows rest r m fresh x e)
        ]
