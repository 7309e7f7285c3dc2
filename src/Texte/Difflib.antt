-- ===== src/Texte/Difflib.antt =====
-- noyau/texte.ts, from the line `difflib`: the port of Python's `SequenceMatcher`.
pub mod Slices
pub mod Blocks
pub mod Totals
pub mod Bags
pub mod Bounds
pub mod Filters
pub mod Closest
mod Examples
use paraphe.Common.{
  ℕ, zero, suc, ◌+◌, ◌-◌, ◌*◌, ◌≤◌, ◌<◌, min, Bool, true, false, ◌&&◌, ◌||◌, Option, none, some,
  List, [], ◌∷◌, ◌++◌, Text, ltb, leb, ◌==◌, if◌then◌else◌, or_else, length, get_elem?, ℤ, pos, inc,
  dec, is_positive, not, ◌>>=◌,
}

abbrev pub autojunk_threshold : ℕ
autojunk_threshold = 200

-- A `Map` from numbers, in the order of first insertion.
unfoldable pub find {ℓ} : {A : Type ℓ} → List (ℕ × A) → ℕ → Option A
find [] k = none
find ((j, v) ∷ m) k = if j == k then some v else find m k

-- `m.set(k, v)`
unfoldable pub store {ℓ} : {A : Type ℓ} → List (ℕ × A) → ℕ → A → List (ℕ × A)
store [] k v = (k, v) ∷ []
store ((j, w) ∷ m) k v = if j == k then (k, v) ∷ m else (j, w) ∷ store m k v

-- The loop of `indexOfB`, from the position `j` on.
unfoldable pub index_from : ℕ → Text → List (ℕ × List ℕ) → List (ℕ × List ℕ)
unfolding find store
index_from j [] b2j = b2j
index_from j (c ∷ b) b2j = index_from (j + 1) b (store b2j c (or_else (find b2j c) [] ++ j ∷ []))

unfoldable pub index_of_b : Text → List (ℕ × List ℕ)
unfolding index_from
index_of_b b = index_from 0 b []

pub record Block : Type 0 where
  pub start_a : ℕ
  pub start_b : ℕ
  pub size : ℕ

-- The variables of the inner loop of `longestMatch`: the best block and `fresh`.
pub record Search : Type 0 where
  pub best : Block
  pub fresh : List (ℕ × ℕ)

-- `j2len.get(j - 1) ?? 0`; the key -1 is never set
unfoldable pub length_before : List (ℕ × ℕ) → ℕ → ℕ
unfolding find
length_before j2len zero = 0
length_before j2len (suc j) = or_else (find j2len j) 0

-- One round of the inner loop past its two guards.
unfoldable pub visit : ℕ → List (ℕ × ℕ) → ℕ → Search → Search
unfolding length_before store
visit i j2len j s =
    let k : ℕ = length_before j2len j + 1 in
    record {
      best =
          if ltb s.best.size k
          then record { start_a = i + 1 - k; start_b = j + 1 - k; size = k }
          else s.best;
      fresh = store s.fresh j k;
    }

-- The inner loop of `longestMatch`, over the positions of `a[i]` in `b`.
unfoldable pub visit_all : ℕ → ℕ → ℕ → List (ℕ × ℕ) → List ℕ → Search → Search
unfolding visit
visit_all blo bhi i j2len [] s = s
visit_all blo bhi i j2len (j ∷ js) s =
    let skipped = visit_all blo bhi i j2len js s in
    let visited = visit_all blo bhi i j2len js (visit i j2len j s) in
    if ltb j blo then skipped else if leb bhi j then s else visited

-- `b2j.get(a[i]) ?? []`
unfoldable pub positions : Text → List (ℕ × List ℕ) → ℕ → List ℕ
unfolding find
positions a b2j i = elim (get_elem? a i) [ none ↦ [] | some c ↦ or_else (find b2j c) [] ]

-- The outer loop of `longestMatch`, with the number of rounds that are left.
unfoldable pub search_rows : Text → List (ℕ × List ℕ) → ℕ → ℕ → ℕ → ℕ → Search → Search
unfolding visit_all positions
search_rows a b2j blo bhi zero i s = s
search_rows a b2j blo bhi (suc n) i s =
    search_rows a b2j blo bhi n (i + 1)
      (visit_all blo bhi i s.fresh (positions a b2j i) (record { best = s.best; fresh = [] }))

pub record Window : Type 0 where
  pub alo : ℕ
  pub ahi : ℕ
  pub blo : ℕ
  pub bhi : ℕ

unfoldable pub longest_match : Text → List (ℕ × List ℕ) → Window → Block
unfolding search_rows
longest_match a b2j w =
    (search_rows a b2j w.blo w.bhi (w.ahi - w.alo) w.alo
      (record { best = record { start_a = w.alo; start_b = w.blo; size = 0 }; fresh = [] })).best

-- The windows that one round of `matched` pushes, the last pushed at the head.
unfoldable pub push_left : Window → Block → List Window → List Window
push_left w m stack =
    if ltb w.alo m.start_a && ltb w.blo m.start_b
    then record { alo = w.alo; ahi = m.start_a; blo = w.blo; bhi = m.start_b } ∷ stack
    else stack

unfoldable pub push_right : Window → Block → List Window → List Window
push_right w m stack =
    if ltb (m.start_a + m.size) w.ahi && ltb (m.start_b + m.size) w.bhi
    then record { alo = m.start_a + m.size; ahi = w.ahi; blo = m.start_b + m.size; bhi = w.bhi }
      ∷ stack
    else stack

-- The loop of `matched`; `none` means that the fuel ran out.
unfoldable pub drain : ℕ → Text → List (ℕ × List ℕ) → List Window → ℕ → Option ℕ
unfolding longest_match push_left push_right
drain zero a b2j stack total = none
drain (suc fuel) a b2j [] total = some total
drain (suc fuel) a b2j (w ∷ stack) total =
    let m = longest_match a b2j w in
    let skipped = drain fuel a b2j stack total in
    let counted = drain fuel a b2j (push_right w m (push_left w m stack)) (total + m.size) in
    if m.size == 0 then skipped else counted

unfoldable pub matched : Text → Text → List (ℕ × List ℕ) → Option ℕ
unfolding drain
matched a b b2j =
    drain (2 * length a + 2) a b2j
      (record { alo = 0; ahi = length a; blo = 0; bhi = length b } ∷ []) 0

-- A quotient of two numbers. Division rounds correctly, so two quotients of numbers below 2 ^ 26
-- that differ stay apart, in the same order, as floating-point numbers.
pub record Score : Type 0 where
  pub num : ℕ
  pub den : ℕ

-- `x < y`
unfoldable pub below : Score → Score → Bool
below x y = ltb (x.num * y.den) (y.num * x.den)

pub data Ratio : Type 0 where
  score : Score → Ratio
  too_long out_of_fuel : Ratio

-- `total ? (2 * n) / total : 1`
unfoldable pub over_total : ℕ → ℕ → Score
over_total n total =
    if total == 0 then record { num = 1; den = 1 } else record { num = 2 * n; den = total }

unfoldable pub ratio : Text → Text → Ratio
ratio a b =
    if leb autojunk_threshold (length b)
    then too_long
    else elim (if length a + length b == 0 then some 0 else matched a b (index_of_b b)) [
      | none ↦ out_of_fuel
      | some n ↦ score (over_total n (length a + length b))
    ]

-- The first loop of `quickRatio`: how often each character of `b` is left.
unfoldable pub tally : Text → List (ℕ × ℤ) → List (ℕ × ℤ)
unfolding find store inc
tally [] counts = counts
tally (c ∷ b) counts = tally b (store counts c (inc (or_else (find counts c) (pos 0))))

-- The second loop of `quickRatio`.
unfoldable pub take_units : Text → List (ℕ × ℤ) → ℕ → ℕ
unfolding find store dec
take_units [] counts n = n
take_units (c ∷ a) counts n =
    let left = or_else (find counts c) (pos 0) in
    take_units a (store counts c (dec left)) (if is_positive left then n + 1 else n)

unfoldable pub quick_ratio : Text → Text → Score
quick_ratio a b = over_total (take_units a (tally b []) 0) (length a + length b)

-- `x > y` on texts
unfoldable pub text_gt : Text → Text → Bool
text_gt [] t = false
text_gt (c ∷ s) [] = true
text_gt (c ∷ s) (d ∷ t) = if ltb d c then true else if c == d then text_gt s t else false

-- `best` and `bestScore`.
pub record Best : Type 0 where
  pub found : Option Text
  pub top : Score

-- `best === null || r > bestScore || (r === bestScore && x > best)`
unfoldable pub is_better : Text → Score → Best → Bool
is_better x r best = elim best.found [
  | none ↦ true
  | some y ↦ below best.top r || (not (below r best.top) && text_gt x y)
]

-- The end of a round of `closestMatch`, for the ratio `r` of `x`.
unfoldable pub accept : Score → Text → Score → Best → Best
accept cutoff x r best =
    if below r cutoff
    then best
    else if is_better x r best
    then record { found = some x; top = r }
    else best

-- One round of the loop of `closestMatch`.
unfoldable pub consider : Text → List (ℕ × List ℕ) → Score → Text → Best → Option Best
consider b b2j cutoff x best =
    let total = length x + length b in
    if ltb 0 total && below (record { num = 2 * min (length x) (length b); den = total }) cutoff
    then some best
    else if below (quick_ratio x b) cutoff
    then some best
    else elim (if total == 0 then some 0 else matched x b b2j) [
      | none ↦ none
      | some n ↦ some (accept cutoff x (over_total n total) best)
    ]

unfoldable pub consider_all : Text → List (ℕ × List ℕ) → Score → List Text → Best → Option Best
consider_all b b2j cutoff [] best = some best
consider_all b b2j cutoff (x ∷ xs) best = do
  best' ← consider b b2j cutoff x best
  consider_all b b2j cutoff xs best'

-- `none` means that the fuel of `matched` ran out.
unfoldable pub closest_match : Text → List Text → Score → Option (Option Text)
closest_match word possibilities cutoff = do
  best ←
      consider_all word (index_of_b word) cutoff possibilities
        (record { found = none; top = record { num = 0; den = 1 } })
  some best.found
