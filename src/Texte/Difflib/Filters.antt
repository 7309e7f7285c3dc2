-- ===== src/Texte/Difflib/Filters.antt =====
-- noyau/texte.ts: the filters of `closestMatch`, by length and by `quickRatio`.
use paraphe.Common.{
  ℕ, zero, suc, ◌+◌, ◌*◌, ◌≤◌, ◌<◌, min, true, false, ◌&&◌, none, some, List, [], ◌∷◌, Text, ltb,
  lt→ltb, ◌==◌, if◌then◌else◌, length, ◌≡◌, refl, sym, ap, arith, Bool-cases, inl, inr, or_else,
}
use paraphe.Texte.Difflib.{
  index_of_b, matched, Score, below, over_total, quick_ratio, Best, accept, consider, consider_all,
}
use paraphe.Texte.Difflib.Bounds.{matched_bounds, quick_count, over_total-pos, over_total-below}
use native.Mathlib.Nat.{mul-le-mul_right, mul-lt-mul_of_pos_right, lt_of_mul-lt-mul_right}

-- The ratio of a possibility to the word.
unfoldable pub similarity : Text → Text → Score
similarity x word =
    over_total (or_else (matched x word (index_of_b word)) 0) (length x + length word)

-- What a round does to the best possibility when nothing is filtered beforehand.
unfoldable pub pick : Text → Score → Text → Best → Best
pick word cutoff x best = accept cutoff x (similarity x word) best

pub below-trans_le :
    (x y z : Score)
    → 0 < x.den
    → 0 < y.den
    → below y x ≡ false
    → below y z ≡ true
    → below x z ≡ true
unfolding below
below-trans_le x y z p q h k =
    let first : x.num * y.den ≤ y.num * x.den = ground arith in
    let second : y.num * z.den < z.num * y.den = ground arith in
    lt→ltb _ _ (
      lt_of_mul-lt-mul_right y.den
        (omega (arith, mul-le-mul_right z.den first, mul-lt-mul_of_pos_right {k = x.den} second p)))

quotient-below :
    (n k total : ℕ)
    → n ≤ k
    → below (record { num = 2 * k; den = total }) (record { num = 2 * n; den = total }) ≡ false
unfolding below
quotient-below n k total h =
    ground (arith, mul-le-mul_right {m = 2 * n} {n = 2 * k} total (omega arith))

-- The filter on lengths compares a bound of the ratio.
lengths-below :
    (n k total : ℕ) (cutoff : Score)
    → n ≤ k
    → ltb 0 total && below (record { num = 2 * k; den = total }) cutoff ≡ true
    → below (over_total n total) cutoff ≡ true
unfolding over_total
lengths-below n k total cutoff h e = elim (Bool-cases (total == 0)) [
  | inl z ↦ absurd (ground arith)
  | inr nz ↦ rw nz (
      below-trans_le (record { num = 2 * n; den = total }) (record { num = 2 * k; den = total })
        cutoff (ground arith) (ground arith) (quotient-below n k total h) (ground arith))
]

module _ (cutoff : Score) (x : Text) (best : Best) where
  accept_of_below : (r : Score) → below r cutoff ≡ true → accept cutoff x r best ≡ best
  unfolding accept
  accept_of_below r h = rw h

  accept_matched :
      (n total : ℕ)
      → elim (if total == 0 then some 0 else some n) [
        | none ↦ none
        | some n ↦ some (accept cutoff x (over_total n total) best)
      ]
        ≡ some (accept cutoff x (over_total n total) best)
  unfolding over_total
  accept_matched n zero = refl
  accept_matched n (suc total) = ground arith

module _ (word : Text) (cutoff : Score) where
  quick_ratio-pos : (x : Text) → 0 < (quick_ratio x word).den
  unfolding quick_ratio
  quick_ratio-pos x = over_total-pos (quick_count x word) (length x + length word)

  -- A round that filters does what a round without filters does, and never fails.
  consider-pick :
      (x : Text) (best : Best)
      → consider word (index_of_b word) cutoff x best ≡ some (pick word cutoff x best)
  unfolding consider pick similarity
  consider-pick x best =
      let (n, run, in_a, in_b, quick) = matched_bounds x word in
      let total = length x + length word in
      let kept = accept_of_below cutoff x best (over_total n total) in
      rw run
        (elim (Bool-cases (
          ltb 0 total
          && below (record { num = 2 * min (length x) (length word); den = total }) cutoff)) [
            | inl e ↦ rw e (
                ap some (
                  sym (
                    kept (
                      lengths-below n (min (length x) (length word)) total cutoff (omega arith)
                        e))))
            | inr e ↦ rw e (elim (Bool-cases (below (quick_ratio x word) cutoff)) [
              | inl q ↦ rw q (
                  ap some (
                    sym (
                      kept (
                        below-trans_le (over_total n total) (quick_ratio x word) cutoff
                          (over_total-pos n total) (quick_ratio-pos x)
                          (unfold quick_ratio in
                            over_total-below n (quick_count x word) total quick)
                          q))))
              | inr q ↦ rw q (accept_matched cutoff x best n total)
            ])
          ])

  -- The loop of `closestMatch` without filters.
  unfoldable pub pick_all : List Text → Best → Best
  pick_all [] best = best
  pick_all (x ∷ xs) best = pick_all xs (pick word cutoff x best)

  pub consider_all-pick_all :
      (xs : List Text) (best : Best)
      → consider_all word (index_of_b word) cutoff xs best ≡ some (pick_all xs best)
  unfolding consider_all pick_all
  consider_all-pick_all [] best = refl
  consider_all-pick_all (x ∷ xs) best = rw (consider-pick x best) (consider_all-pick_all xs _)
