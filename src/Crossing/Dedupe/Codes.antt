-- ===== src/Crossing/Dedupe/Codes.antt =====
-- outils/matching.ts: one row per INSEE code, and which one.
use paraphe.Common.{
  ◌≤◌, Bool, true, false, ◌||◌, Option, none, some, List, [], ◌∷◌, map, Text, text_eq, text_eq_iff,
  text_eq_self, keep, any, length, if◌then◌else◌, ltb, ltb→lt, bind-some, lookup, insert,
  lookup-insert, All, ◌≡◌, refl, sym, ap, subst, arith, inl, inr, Bool-cases, ◌∙◌,
}
use mathlib.Core.Option.{some-injective, none-ne-some}
use paraphe.Texte.Unicode.{Unicode}
use paraphe.Crossing.Entities.{Target}
use paraphe.Crossing.Identity.{Verdict, compare_first_names, is_different}
use paraphe.Crossing.Identity.Names.{compare_first_names_self}
use paraphe.Crossing.Dedupe.{Merging, file_rows, merge, confidence_rank}
use paraphe.Crossing.Dedupe.Rows.{Filed, file_row-Filed}

abbrev pub has_code : Text → Target → Bool
has_code k t = text_eq t.rne.insee k

-- Every row stands under its own code, and no code is listed twice.
abbrev pub Keyed : List (Text × Target) → Type 0
Keyed [] = Unit {0}
Keyed ((k, t) ∷ m) = (t.rne.insee ≡ k) × (lookup text_eq m k ≡ none) × Keyed m

insert-Keyed :
    (m : List (Text × Target)) (k : Text) (t : Target)
    → t.rne.insee ≡ k
    → Keyed m
    → Keyed (insert text_eq m k t)
unfolding insert lookup
insert-Keyed [] k t e h = (e, refl, tt)
insert-Keyed ((j, u) ∷ m) k t e (f, n, h) = elim (Bool-cases (text_eq j k)) [
  | inl q ↦ rw q (e ∙ sym ((text_eq_iff j k).0 q), n, h)
  | inr q ↦ rw q (
    f,
    ground (arith, lookup-insert text_eq text_eq_iff m k j t, text_eq_iff j k, text_eq_iff k j),
    insert-Keyed m k t e h,
  )
]

pub lookup-Keyed :
    (m : List (Text × Target)) (k : Text) (t : Target)
    → Keyed m
    → lookup text_eq m k ≡ some t
    → t.rne.insee ≡ k
unfolding lookup
lookup-Keyed [] k t h e = absurd (none-ne-some t e)
lookup-Keyed ((j, u) ∷ m) k t (f, n, h) e =
    ground (arith, text_eq_iff j k, lookup-Keyed m k t h, some-injective u t)

abbrev pub is_some : Option Target → Bool
is_some none = false
is_some (some t) = true

-- A map in which every row stands under its own code has one row for a code that it lists.
pub count-Keyed :
    (m : List (Text × Target)) (k : Text)
    → Keyed m
    → length (keep (has_code k) (map (λ (j, t). t) m))
      ≡ (if is_some (lookup text_eq m k) then 1 else 0)
unfolding lookup
count-Keyed [] k h = refl
count-Keyed ((j, u) ∷ m) k (f, n, h) = elim (Bool-cases (text_eq j k)) [
  | inl q ↦ ground (arith, text_eq_iff u.rne.insee k, text_eq_iff j k, count-Keyed m k h)
  | inr q ↦ ground (arith, text_eq_iff u.rne.insee k, text_eq_iff j k, count-Keyed m k h)
]

merge-rank :
    (t r : Target)
    → confidence_rank (merge t r).conf ≤ confidence_rank t.conf
      × confidence_rank (merge t r).conf ≤ confidence_rank r.conf
unfolding merge
merge-rank t r = elim (Bool-cases (ltb (confidence_rank r.conf) (confidence_rank t.conf))) [
  | inl e ↦ rw e (omega (arith, ltb→lt _ _ e), omega arith)
  | inr e ↦ rw e (ground arith)
]

merge-first_name : (t r : Target) → (merge t r).person.first_name ≡ t.person.first_name
unfolding merge
merge-first_name t r = refl

merge-insee : (t r : Target) → (merge t r).rne.insee ≡ t.rne.insee
unfolding merge
merge-insee t r = refl

-- A row that another one replaces only by a better match under the same first name.
abbrev pub IsReplaced : Target → Target → Type 0
IsReplaced t t' =
    (t'.person.first_name ≡ t.person.first_name) × confidence_rank t'.conf ≤ confidence_rank t.conf

-- What is filed under a code stays filed: the first name is kept, the match does not get worse.
abbrev pub Grows : Merging → Merging → Type 0
Grows m m' =
    (k : Text) (t : Target)
    → lookup text_eq m.by_insee k ≡ some t
    → (t' : Target) × (lookup text_eq m'.by_insee k ≡ some t') × IsReplaced t t'

IsReplaced-insert :
    (m : List (Text × Target)) (j : Text) (u : Target) (k : Text) (t : Target)
    → (text_eq j k ≡ true → IsReplaced t u)
    → lookup text_eq m k ≡ some t
    → (t' : Target) × (lookup text_eq (insert text_eq m j u) k ≡ some t') × IsReplaced t t'
IsReplaced-insert m j u k t p h = elim (Bool-cases (text_eq j k)) [
  | inl q ↦ (u, rw (lookup-insert text_eq text_eq_iff m j k u, q) refl, p q)
  | inr q ↦ (t, rw (lookup-insert text_eq text_eq_iff m j k u, q) h, (refl, omega arith))
]

pub lookup-insert_self :
    (m : List (Text × Target)) (k : Text) (t : Target)
    → lookup text_eq (insert text_eq m k t) k ≡ some t
lookup-insert_self m k t = rw (lookup-insert text_eq text_eq_iff m k k t, text_eq_self k) refl

module _ (unicode : Unicode) where
  -- A row of this first name and this match is filed.
  abbrev pub HasRow : List (Text × Target) → Target → Type 0
  HasRow m r =
      (t : Target) × (lookup text_eq m r.rne.insee ≡ some t)
      × ((v : Verdict) × (compare_first_names unicode t.person.first_name r.person.first_name
            ≡ some v)
          × (is_different v ≡ false))
      × confidence_rank t.conf ≤ confidence_rank r.conf

  Filed-Grows :
      (m m' : Merging) (r : Target) (found : Option Target)
      → lookup text_eq m.by_insee r.rne.insee ≡ found
      → Filed unicode m m' r found
      → Grows m m'
  Filed-Grows m m' r none e f k t h = rw f (
      IsReplaced-insert m.by_insee r.rne.insee r k t
        (λ q.
          absurd
            (none-ne-some t (sym e ∙ ap (lookup text_eq m.by_insee) ((text_eq_iff _ k).0 q) ∙ h)))
        h)
  Filed-Grows m m' r (some target) e (_, f) k t h = rw f (
      IsReplaced-insert m.by_insee r.rne.insee (merge target r) k t
        (λ q.
          subst (λ u. IsReplaced u (merge target r))
            (some-injective target t
              (sym e ∙ ap (lookup text_eq m.by_insee) ((text_eq_iff _ k).0 q) ∙ h))
            (merge-first_name target r, (merge-rank target r).0))
        h)

  Filed-HasRow :
      (m m' : Merging) (r : Target) (found : Option Target)
      → lookup text_eq m.by_insee r.rne.insee ≡ found
      → Filed unicode m m' r found
      → HasRow m'.by_insee r
  Filed-HasRow m m' r none e f = (
    r,
    rw f (lookup-insert_self m.by_insee r.rne.insee r),
    compare_first_names_self unicode r.person.first_name,
    omega arith,
  )
  Filed-HasRow m m' r (some target) e (v, f) = (
    merge target r,
    rw f (lookup-insert_self m.by_insee r.rne.insee (merge target r)),
    rw (merge-first_name target r) v,
    (merge-rank target r).1,
  )

  Filed-Keyed :
      (m m' : Merging) (r : Target) (found : Option Target)
      → lookup text_eq m.by_insee r.rne.insee ≡ found
      → Filed unicode m m' r found
      → Keyed m.by_insee
      → Keyed m'.by_insee
  Filed-Keyed m m' r none e f h = rw f (insert-Keyed m.by_insee r.rne.insee r refl h)
  Filed-Keyed m m' r (some target) e (_, f) h = rw f (
      insert-Keyed m.by_insee r.rne.insee (merge target r)
        (merge-insee target r ∙ lookup-Keyed m.by_insee r.rne.insee target h e) h)

  -- Which codes are listed.
  Filed-codes :
      (m m' : Merging) (r : Target) (found : Option Target) (k : Text)
      → Filed unicode m m' r found
      → is_some (lookup text_eq m'.by_insee k)
        ≡ has_code k r || is_some (lookup text_eq m.by_insee k)
  Filed-codes m m' r none k f =
      rw f (ground (arith, lookup-insert text_eq text_eq_iff m.by_insee r.rne.insee k r))
  Filed-codes m m' r (some target) k (_, f) =
      rw f (
        ground (arith, lookup-insert text_eq text_eq_iff m.by_insee r.rne.insee k (merge target r)))

  HasRow-Grows :
      (m m' : Merging) (r : Target) → Grows m m' → HasRow m.by_insee r → HasRow m'.by_insee r
  HasRow-Grows m m' r g (t, e, v, le) =
      let (t', e', (p, le')) = g r.rne.insee t e in (t', e', rw p v, omega (arith, le, le'))

  pub record Kept (rows : List Target) (m m' : Merging) : Type 0 where
    pub keyed : Keyed m.by_insee → Keyed m'.by_insee
    pub grows : Grows m m'
    pub has_rows : All (HasRow m'.by_insee) rows
    pub codes :
        (k : Text)
        → is_some (lookup text_eq m'.by_insee k)
          ≡ any (has_code k) rows || is_some (lookup text_eq m.by_insee k)

  pub file_rows-Kept :
      (rows : List Target) (m m' : Merging) → file_rows unicode rows m ≡ some m' → Kept rows m m'
  unfolding file_rows
  file_rows-Kept [] m m' h =
      let e = some-injective m m' h in
      record {
        keyed = subst (λ n. Keyed m.by_insee → Keyed n.by_insee) e (λ k. k);
        grows = subst (Grows m) e (λ k t h. (t, h, (refl, omega arith)));
        has_rows = tt;
        codes = λ k. ap (λ n. is_some (lookup text_eq n.by_insee k)) (sym e);
      }
  file_rows-Kept (r ∷ rows) m m' h =
      let (n, e, k) = bind-some _ _ _ h in
      let filed = file_row-Filed unicode m n r _ e in
      let rest = file_rows-Kept rows n m' k in
      record {
        keyed = λ h. rest.keyed (Filed-Keyed m n r _ refl filed h);
        grows = λ k t h.
            let (t', e', (p, le)) = Filed-Grows m n r _ refl filed k t h in
            let (u, f, (q, le')) = rest.grows k t' e' in (u, f, (q ∙ p, omega (arith, le, le')));
        has_rows =
            (HasRow-Grows n m' r rest.grows (Filed-HasRow m n r _ refl filed), rest.has_rows);
        codes = λ k. ground (arith, rest.codes k, Filed-codes m n r _ k filed);
      }
