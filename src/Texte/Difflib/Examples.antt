-- ===== src/Texte/Difflib/Examples.antt =====
-- Tests of the comparison of texts, and its theorems at concrete inputs.
use paraphe.Common.{
  ℕ, ◌≤◌, ◌<◌, codes, refl, ◌≡◌, Option, some, false, [], ◌∷◌, Text, length, count, arith, List,
}
use paraphe.Texte.Difflib.{
  index_of_b, matched, Window, longest_match, Score, score, below, over_total, ratio, tally,
  take_units, quick_ratio, text_gt, is_better, accept, consider, consider_all, closest_match,
}
use paraphe.Texte.Difflib.Slices.{index_of_b-IsIndex}
use paraphe.Texte.Difflib.Blocks.{IsCommon, longest_match-IsCommon}
use paraphe.Texte.Difflib.Totals.{matched-IsShared}
use paraphe.Texte.Difflib.Bounds.{ratio_bounds}
use paraphe.Texte.Difflib.Closest.{IsClosest, closest_match-IsClosest}

abbrev saint : Text
saint = codes "SAINT DENIS"

abbrev st : Text
st = codes "ST DENIS"

ratio_test : ratio saint st ≡ score (record { num = 16; den = 19 })
unfolding ratio matched index_of_b over_total
ratio_test = refl

abbrev names : List Text
names = codes "VONCOURT" ∷ codes "GONCOURTS" ∷ codes "AX" ∷ []

abbrev cutoff : Score
cutoff = record { num = 93; den = 100 }

closest_test : closest_match (codes "GONCOURT") names cutoff ≡ some (some (codes "GONCOURTS"))
unfolding closest_match consider_all consider matched index_of_b over_total quick_ratio tally
    take_units below accept is_better text_gt
closest_test = refl

abbrev whole : Window
whole = record { alo = 0; ahi = 11; blo = 0; bhi = 8 }

longest_match-IsCommon_example : IsCommon saint st whole (longest_match saint (index_of_b st) whole)
longest_match-IsCommon_example =
    longest_match-IsCommon saint st whole (index_of_b st) (index_of_b-IsIndex st) (omega arith)
      (omega arith)

matched-IsShared_example :
    (n : ℕ) × (shared : Text) × (matched saint st (index_of_b st) ≡ some n)
    × (length shared ≡ n)
    × ((c : ℕ) → count c shared ≤ count c saint)
    × ((c : ℕ) → count c shared ≤ count c st)
matched-IsShared_example = matched-IsShared saint st

ratio_bounds_example :
    (r : Score) × (ratio saint st ≡ score r)
    × (r.num ≤ r.den)
    × (0 < r.den)
    × (below (quick_ratio saint st) r ≡ false)
ratio_bounds_example = ratio_bounds saint st (omega arith)

closest_match-IsClosest_example :
    (found : Option Text) × (closest_match (codes "GONCOURT") names cutoff ≡ some found)
    × IsClosest (codes "GONCOURT") cutoff found names
closest_match-IsClosest_example = closest_match-IsClosest (codes "GONCOURT") names cutoff
