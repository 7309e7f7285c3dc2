-- ===== src/Texte/Difflib/Bounds.antt =====
-- noyau/texte.ts, `ratio` and `quickRatio`: the bounds on a ratio, and its upper bound.
use paraphe.Common.{
  ℕ, ◌+◌, ◌*◌, ◌≤◌, ◌<◌, false, some, [], Text, ◌==◌, length, ◌≡◌, refl, arith, Bool-cases, inl,
  inr,
}
use paraphe.Texte.Difflib.{
  index_of_b, matched, Score, below, score, over_total, ratio, tally, take_units, quick_ratio,
  autojunk_threshold,
}
use paraphe.Texte.Difflib.Totals.{matched-IsShared}
use paraphe.Texte.Difflib.Bags.{length-le-quick, length-le_of_count}
use native.Mathlib.Nat.{mul-le-mul_right}

abbrev pub quick_count : Text → Text → ℕ
quick_count a b = take_units a (tally b []) 0

-- `matched` ends, and counts no more than the shorter text holds and than `quickRatio` counts.
pub matched_bounds :
    (a b : Text)
    → (n : ℕ) × (matched a b (index_of_b b) ≡ some n)
      × (n ≤ length a)
      × (n ≤ length b)
      × (n ≤ quick_count a b)
matched_bounds a b =
    let (n, m, run, size, in_a, in_b) = matched-IsShared a b in
    (
      n,
      run,
      omega (arith, length-le_of_count a m in_a),
      omega (arith, length-le_of_count b m in_b),
      omega (arith, length-le-quick a b m in_a in_b),
    )

pub over_total-below :
    (n m total : ℕ) → n ≤ m → below (over_total m total) (over_total n total) ≡ false
unfolding below over_total
over_total-below n m total h = elim (Bool-cases (total == 0)) [
  | inl e ↦ rw e refl
  | inr e ↦ rw e (ground (arith, mul-le-mul_right {m = 2 * n} {n = 2 * m} total (omega arith)))
]

pub over_total-le :
    (n : ℕ) (a b : Text)
    → n ≤ length a
    → n ≤ length b
    → (over_total n (length a + length b)).num ≤ (over_total n (length a + length b)).den
unfolding over_total
over_total-le n a b p q = ground arith

pub over_total-pos : (n total : ℕ) → 0 < (over_total n total).den
unfolding over_total
over_total-pos n total = ground arith

ratio-matched :
    (a b : Text) (n : ℕ)
    → length b < autojunk_threshold
    → matched a b (index_of_b b) ≡ some n
    → ratio a b ≡ score (over_total n (length a + length b))
unfolding ratio over_total
ratio-matched a b n h run = elim (Bool-cases (length a + length b == 0)) [
  | inl e ↦ ground arith
  | inr e ↦ ground arith
]

-- For a second text below the threshold, `ratio` returns a ratio between 0 and 1, and
-- `quickRatio` is never below it.
pub ratio_bounds :
    (a b : Text)
    → length b < autojunk_threshold
    → (r : Score) × (ratio a b ≡ score r)
      × (r.num ≤ r.den)
      × (0 < r.den)
      × (below (quick_ratio a b) r ≡ false)
unfolding quick_ratio
ratio_bounds a b h =
    let (n, run, in_a, in_b, quick) = matched_bounds a b in
    (
      over_total n (length a + length b),
      ratio-matched a b n h run,
      over_total-le n a b in_a in_b,
      over_total-pos n (length a + length b),
      over_total-below n (quick_count a b) (length a + length b) quick,
    )
