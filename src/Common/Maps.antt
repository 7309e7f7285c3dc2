-- ===== src/Common/Maps.antt =====
-- A `Map` as the list of its entries, in the order of first insertion, and a stable sort.
use Prim.Native.Nat.{suc, ◌+◌}
use mathlib.Core.Path.{◌≡◌, refl, sym, subst}
use mathlib.Core.Logic.{◌↔◌, inl, inr}
use mathlib.Core.Bool.{Bool, true}
use mathlib.Core.Option.{Option, none, some, none-ne-some, some-injective}
use mathlib.Core.List.{List, [], ◌∷◌}
use native.Mathlib.Omega.{arith}
use paraphe.Common.Tests.{if◌then◌else◌, Bool-cases}
use paraphe.Common.Lists.{length, keep, Exists}

module _ {K V : Type 0} (same : K → K → Bool) where
  -- `m.get(k)`
  unfoldable pub lookup : List (K × V) → K → Option V
  lookup [] k = none
  lookup ((j, v) ∷ m) k = if same j k then some v else lookup m k

  -- `m.set(k, v)`
  unfoldable pub insert : List (K × V) → K → V → List (K × V)
  insert [] k v = (k, v) ∷ []
  insert ((j, w) ∷ m) k v = if same j k then (j, v) ∷ m else (j, w) ∷ insert m k v

  -- No key is listed twice.
  abbrev pub HasKeys : List (K × V) → Type 0
  HasKeys [] = Unit {0}
  HasKeys ((k, v) ∷ m) = (lookup m k ≡ none) × HasKeys m

  -- A new key makes the map longer by one, a key that it has leaves its length.
  pub length-insert :
      (m : List (K × V)) (k : K) (v : V)
      → length (insert m k v) ≡ length m + elim (lookup m k) [ none ↦ 1 | some _ ↦ 0 ]
  unfolding lookup insert
  length-insert [] k v = omega arith
  length-insert ((j, w) ∷ m) k v = ground (arith, length-insert m k v)

  module _ (same_iff : (j k : K) → (same j k ≡ true) ↔ (j ≡ k)) where
    pub lookup-insert :
        (m : List (K × V)) (k j : K) (v : V)
        → lookup (insert m k v) j ≡ (if same k j then some v else lookup m j)
    unfolding lookup insert
    lookup-insert [] k j v = refl
    lookup-insert ((i, w) ∷ m) k j v =
        ground (arith, same_iff i k, same_iff i j, same_iff k j, lookup-insert m k j v)

    pub insert-HasKeys : (m : List (K × V)) (k : K) (v : V) → HasKeys m → HasKeys (insert m k v)
    unfolding lookup insert
    insert-HasKeys [] k v h = (refl, tt)
    insert-HasKeys ((j, w) ∷ m) k v h =
        ground (arith, same_iff j k, same_iff k j, lookup-insert m k j v, insert-HasKeys m k v h.1)

    module _ (P : K → V → Type 0) where
      -- What holds of every entry.
      abbrev pub AllEntries : List (K × V) → Type 0
      AllEntries [] = Unit {0}
      AllEntries ((k, v) ∷ m) = P k v × AllEntries m

      pub lookup-AllEntries :
          (m : List (K × V)) (k : K) (v : V) → AllEntries m → lookup m k ≡ some v → P k v
      unfolding lookup
      lookup-AllEntries [] k v h e = absurd (none-ne-some v e)
      lookup-AllEntries ((j, w) ∷ m) k v (p, h) e = elim (Bool-cases (same j k)) [
        | inl q ↦
            subst (λ i. P i v) ((same_iff j k).0 q)
              (subst (P j)
                (some-injective w v (subst (λ b. (if b then some w else lookup m k) ≡ some v) q e))
                p)
        | inr q ↦
            lookup-AllEntries m k v h (subst (λ b. (if b then some w else lookup m k) ≡ some v) q e)
      ]

      pub insert-AllEntries :
          (m : List (K × V)) (k : K) (v : V) → P k v → AllEntries m → AllEntries (insert m k v)
      unfolding insert
      insert-AllEntries [] k v p h = (p, tt)
      insert-AllEntries ((j, w) ∷ m) k v p (q, h) = elim (Bool-cases (same j k)) [
        | inl e ↦ rw e (subst (λ i. P i v) (sym ((same_iff j k).0 e)) p, h)
        | inr e ↦ rw e (q, insert-AllEntries m k v p h)
      ]

module _ {A : Type 0} (lt : A → A → Bool) where
  insert_sorted : A → List A → List A
  insert_sorted x [] = x ∷ []
  insert_sorted x (y ∷ ys) =
      let rest = insert_sorted x ys in if lt y x then y ∷ rest else x ∷ y ∷ ys

  -- `[...xs].sort(…)`, where `lt x y` tells that `x` comes before `y`.
  unfoldable pub sort_by : List A → List A
  unfolding insert_sorted
  sort_by [] = []
  sort_by (x ∷ xs) = insert_sorted x (sort_by xs)

  length-insert_sorted : (x : A) (xs : List A) → length (insert_sorted x xs) ≡ suc (length xs)
  unfolding insert_sorted
  length-insert_sorted x [] = refl
  length-insert_sorted x (y ∷ ys) = ground (arith, length-insert_sorted x ys)

  pub length-sort_by : (xs : List A) → length (sort_by xs) ≡ length xs
  unfolding sort_by
  length-sort_by [] = refl
  length-sort_by (x ∷ xs) = omega (arith, length-insert_sorted x (sort_by xs), length-sort_by xs)

  length-keep-insert_sorted :
      (p : A → Bool) (x : A) (xs : List A)
      → length (keep p (insert_sorted x xs)) ≡ length (keep p (x ∷ xs))
  unfolding insert_sorted
  length-keep-insert_sorted p x [] = refl
  length-keep-insert_sorted p x (y ∷ ys) = ground (arith, length-keep-insert_sorted p x ys)

  -- Sorting keeps how many elements pass a test.
  pub length-keep-sort_by :
      (p : A → Bool) (xs : List A) → length (keep p (sort_by xs)) ≡ length (keep p xs)
  unfolding sort_by
  length-keep-sort_by p [] = refl
  length-keep-sort_by p (x ∷ xs) =
      ground (arith, length-keep-insert_sorted p x (sort_by xs), length-keep-sort_by p xs)

  module _ (P : A → Type 0) where
    Exists-swap :
        (x y : A) (ys : List A)
        → (Exists P (x ∷ ys) → Exists P (insert_sorted x ys))
        → Exists P (x ∷ y ∷ ys)
        → Exists P (y ∷ insert_sorted x ys)
    Exists-swap x y ys rest (inl p) = inr (rest (inl p))
    Exists-swap x y ys rest (inr (inl p)) = inl p
    Exists-swap x y ys rest (inr (inr p)) = inr (rest (inr p))

    Exists-insert_sorted : (x : A) (xs : List A) → Exists P (x ∷ xs) → Exists P (insert_sorted x xs)
    unfolding insert_sorted
    Exists-insert_sorted x [] h = h
    Exists-insert_sorted x (y ∷ ys) h = elim (Bool-cases (lt y x)) [
      | inl e ↦ rw e (Exists-swap x y ys (Exists-insert_sorted x ys) h)
      | inr e ↦ rw e h
    ]

    pub Exists-sort_by : (xs : List A) → Exists P xs → Exists P (sort_by xs)
    unfolding sort_by
    Exists-sort_by [] h = h
    Exists-sort_by (x ∷ xs) (inl p) = Exists-insert_sorted x (sort_by xs) (inl p)
    Exists-sort_by (x ∷ xs) (inr p) =
        Exists-insert_sorted x (sort_by xs) (inr (Exists-sort_by xs p))
