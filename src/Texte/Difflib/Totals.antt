-- ===== src/Texte/Difflib/Totals.antt =====
-- noyau/texte.ts, `matched`: the loop ends, and it counts characters that both texts share.
use paraphe.Common.{
  ℕ, zero, suc, ◌+◌, ◌-◌, ◌*◌, ◌≤◌, ◌<◌, some, List, [], ◌∷◌, ◌++◌, Text, ◌==◌, length,
  length-append, take, drop, ◌≡◌, refl, sym, ap, ◌∙◌, arith, All, Bool-cases, inl, inr, count,
  count-append,
}
use paraphe.Texte.Difflib.{
  index_of_b, Block, Window, longest_match, push_left, push_right, drain, matched,
}
use paraphe.Texte.Difflib.Slices.{slice, IsIndex, index_of_b-IsIndex}
use paraphe.Texte.Difflib.Blocks.{IsCommon, longest_match-IsCommon}

take-nil : (k : ℕ) → take {A = ℕ} k [] ≡ []
take-nil zero = refl
take-nil (suc k) = refl

drop-nil : (k : ℕ) → drop {A = ℕ} k [] ≡ []
drop-nil zero = refl
drop-nil (suc k) = refl

take_add : (k l : ℕ) (s : Text) → take (k + l) s ≡ take k s ++ take l (drop k s)
take_add zero l s = let e : 0 + l ≡ l = omega arith in rw e
take_add (suc k) l [] = let e : suc k + l ≡ suc (k + l) = omega arith in rw (e, take-nil l)
take_add (suc k) l (c ∷ s) =
    let e : suc k + l ≡ suc (k + l) = omega arith in rw e (ap (◌∷◌ c) (take_add k l s))

drop-drop : (i k : ℕ) (s : Text) → drop k (drop i s) ≡ drop (i + k) s
drop-drop zero k s = let e : 0 + k ≡ k = omega arith in rw e
drop-drop (suc i) k [] = drop-nil k ∙ sym (drop-nil (suc i + k))
drop-drop (suc i) k (c ∷ s) =
    let e : suc i + k ≡ suc (i + k) = omega arith in rw e (drop-drop i k s)

slice_add : (s : Text) (i k l : ℕ) → slice s i (k + l) ≡ slice s i k ++ slice s (i + k) l
slice_add s i k l =
    take_add k l (drop i s) ∙ ap (λ t. take k (drop i s) ++ take l t) (drop-drop i k s)

-- The characters between two positions.
abbrev between : Text → ℕ → ℕ → Text
between s lo hi = slice s lo (hi - lo)

between-append :
    (s : Text) (lo mid hi : ℕ)
    → lo ≤ mid
    → mid ≤ hi
    → between s lo hi ≡ between s lo mid ++ between s mid hi
between-append s lo mid hi p q =
    let size : hi - lo ≡ (mid - lo) + (hi - mid) = omega arith in
    let start : lo + (mid - lo) ≡ mid = omega arith in
    rw size (
      slice_add s lo (mid - lo) (hi - mid)
      ∙ ap (λ i. between s lo mid ++ slice s i (hi - mid)) start)

count-between :
    (c : ℕ) (s : Text) (lo i k hi : ℕ)
    → lo ≤ i
    → i + k ≤ hi
    → count c (between s lo hi)
      ≡ count c (between s lo i) + count c (slice s i k) + count c (between s (i + k) hi)
count-between c s lo i k hi p q =
    let size : i + k - i ≡ k = omega arith in
    let inner : between s i hi ≡ slice s i k ++ between s (i + k) hi =
      between-append s i (i + k) hi (omega arith) q
      ∙ ap (λ n. slice s i n ++ between s (i + k) hi) size in
    omega (
      arith,
      ap (count c) (between-append s lo i hi p (omega arith)),
      count-append c (between s lo i) (between s i hi),
      ap (count c) inner,
      count-append c (slice s i k) (between s (i + k) hi),
    )

length-take_of_le : (k : ℕ) (s : Text) → k ≤ length s → length (take k s) ≡ k
length-take_of_le zero s h = refl
length-take_of_le (suc k) [] h = absurd (omega arith)
length-take_of_le (suc k) (c ∷ s) h = ap suc (length-take_of_le k s (omega arith))

length-drop : (i : ℕ) (s : Text) → length (drop i s) ≡ length s - i
length-drop zero s = omega arith
length-drop (suc i) [] = omega arith
length-drop (suc i) (c ∷ s) = omega (arith, length-drop i s)

length-slice : (s : Text) (i k : ℕ) → i + k ≤ length s → length (slice s i k) ≡ k
length-slice s i k h = length-take_of_le k (drop i s) (omega (arith, length-drop i s))

module _ (a b : Text) where
  -- A window inside both texts.
  abbrev Fits : Window → Type 0
  Fits w = (w.alo ≤ w.ahi) × (w.ahi ≤ length a) × (w.blo ≤ w.bhi) × (w.bhi ≤ length b)

  abbrev stack_a : ℕ → List Window → ℕ
  stack_a c [] = 0
  stack_a c (w ∷ stack) = count c (between a w.alo w.ahi) + stack_a c stack

  abbrev stack_b : ℕ → List Window → ℕ
  stack_b c [] = 0
  stack_b c (w ∷ stack) = count c (between b w.blo w.bhi) + stack_b c stack

  -- Each round takes one unit of it.
  abbrev work : List Window → ℕ
  work [] = 0
  work (w ∷ stack) = 2 * (w.ahi - w.alo) + 1 + work stack

  module _ (w : Window) (m : Block) (fits : Fits w) (ok : IsCommon a b w m)
      (stack : List Window) where
    push-Fits : All Fits stack → All Fits (push_right w m (push_left w m stack))
    unfolding push_right push_left
    push-Fits h = ground arith

    work-push : 0 < m.size → work (push_right w m (push_left w m stack)) < work (w ∷ stack)
    unfolding push_right push_left
    work-push h = ground arith

    stack_a-push :
        (c : ℕ)
        → stack_a c (push_right w m (push_left w m stack)) + count c (slice a m.start_a m.size)
          ≤ stack_a c (w ∷ stack)
    unfolding push_right push_left
    stack_a-push c =
        ground (arith, count-between c a w.alo m.start_a m.size w.ahi ok.from_a ok.to_a)

    stack_b-push :
        (c : ℕ)
        → stack_b c (push_right w m (push_left w m stack)) + count c (slice b m.start_b m.size)
          ≤ stack_b c (w ∷ stack)
    unfolding push_right push_left
    stack_b-push c =
        ground (arith, count-between c b w.blo m.start_b m.size w.bhi ok.from_b ok.to_b)

  -- The characters counted for the windows of a stack: as many as were counted, and in each text
  -- no more of any character than the windows hold.
  pub record IsShared (stack : List Window) (n : ℕ) : Type 0 where
    pub shared : Text
    pub counted : length shared ≡ n
    pub in_a : (c : ℕ) → count c shared ≤ stack_a c stack
    pub in_b : (c : ℕ) → count c shared ≤ stack_b c stack

  IsShared-skip :
      (w : Window) (stack : List Window) (n : ℕ) → IsShared stack n → IsShared (w ∷ stack) n
  IsShared-skip w stack n h = record {
    shared = h.shared;
    counted = h.counted;
    in_a = λ c. omega (arith, h.in_a c);
    in_b = λ c. omega (arith, h.in_b c);
  }

  IsShared-push :
      (w : Window) (m : Block) (stack : List Window) (n : ℕ)
      → Fits w
      → IsCommon a b w m
      → IsShared (push_right w m (push_left w m stack)) n
      → IsShared (w ∷ stack) (m.size + n)
  IsShared-push w m stack n fits ok h = record {
    shared = slice a m.start_a m.size ++ h.shared;
    counted = omega (
      arith,
      length-append (slice a m.start_a m.size) h.shared,
      length-slice a m.start_a m.size,
      h.counted,
      ok.to_a,
    );
    in_a = λ c. omega (
      arith,
      count-append c (slice a m.start_a m.size) h.shared,
      h.in_a c,
      stack_a-push w m fits ok stack c,
    );
    in_b = λ c. omega (
      arith,
      count-append c (slice a m.start_a m.size) h.shared,
      h.in_b c,
      stack_b-push w m fits ok stack c,
      ap (count c) ok.same,
    );
  }

  module _ (b2j : List (ℕ × List ℕ)) (index : IsIndex b b2j) where
    drain-IsShared :
        (fuel : ℕ) (stack : List Window) (total : ℕ)
        → work stack < fuel
        → All Fits stack
        → (n : ℕ) × (drain fuel a b2j stack total ≡ some (total + n)) × IsShared stack n
    unfolding drain
    drain-IsShared zero stack total lt h = absurd (omega arith)
    drain-IsShared (suc fuel) [] total lt h = (
      0,
      ap some (omega arith),
      record { shared = []; counted = refl; in_a = λ c. omega arith; in_b = λ c. omega arith },
    )
    drain-IsShared (suc fuel) (w ∷ stack) total lt (fits, h) =
        let m = longest_match a b2j w in
        let ok = longest_match-IsCommon a b w b2j index fits.0 fits.2 in
        elim (Bool-cases (m.size == 0)) [
          | inl e ↦
              let (n, r, s) = drain-IsShared fuel stack total (omega arith) h in
              (n, rw e r, IsShared-skip w stack n s)
          | inr e ↦
              let (n, r, s) =
                drain-IsShared fuel (push_right w m (push_left w m stack)) (total + m.size)
                  (omega (arith, work-push w m fits ok stack (ground arith)))
                  (push-Fits w m fits ok stack h) in
              (m.size + n, rw e (r ∙ ap some (omega arith)), IsShared-push w m stack n fits ok s)
        ]

take-length : (s : Text) → take (length s) s ≡ s
take-length [] = refl
take-length (c ∷ s) = ap (◌∷◌ c) (take-length s)

between_all : (s : Text) → between s 0 (length s) ≡ s
between_all s = let e : length s - 0 ≡ length s = omega arith in rw e (take-length s)

-- `matched` ends for all texts, and its result is the length of a text each of whose characters
-- stands in both texts at least as often.
pub matched-IsShared :
    (a b : Text)
    → (n : ℕ) × (shared : Text) × (matched a b (index_of_b b) ≡ some n)
      × (length shared ≡ n)
      × ((c : ℕ) → count c shared ≤ count c a)
      × ((c : ℕ) → count c shared ≤ count c b)
unfolding matched
matched-IsShared a b =
    let w : Window = record { alo = 0; ahi = length a; blo = 0; bhi = length b } in
    let (n, r, s) =
      drain-IsShared a b (index_of_b b) (index_of_b-IsIndex b) (2 * length a + 2) (w ∷ []) 0
        (omega arith) (omega arith) in
    (
      n,
      s.shared,
      r ∙ ap some (omega arith),
      s.counted,
      λ c. omega (arith, s.in_a c, ap (count c) (between_all a)),
      λ c. omega (arith, s.in_b c, ap (count c) (between_all b)),
    )
