-- ===== src/Texte/Difflib/Bags.antt =====
-- noyau/texte.ts, `quickRatio`: what the two loops over the counters count.
use paraphe.Common.{
  ℕ, zero, suc, ◌+◌, ◌-◌, ◌≤◌, ◌<◌, true, List, [], ◌∷◌, Text, ◌==◌, if◌then◌else◌, or_else, length,
  ◌≡◌, refl, ap, ◌∙◌, arith, ltb, Bool-cases, inl, inr, count, ℤ, pos, negsuc, inc, dec, pos_part,
  is_positive,
}
use paraphe.Texte.Difflib.{find, store, tally, take_units}
use paraphe.Texte.Difflib.Slices.{find-store}

-- The text without the first `c`.
remove : ℕ → Text → Text
remove c [] = []
remove c (d ∷ s) = if d == c then s else d ∷ remove c s

length-remove : (c : ℕ) (s : Text) → 0 < count c s → length (remove c s) + 1 ≡ length s
unfolding remove
length-remove c [] h = absurd (omega arith)
length-remove c (d ∷ s) h = ground (arith, length-remove c s)

count-remove :
    (c e : ℕ) (s : Text)
    → 0 < count c s
    → count e (remove c s) + (if c == e then 1 else 0) ≡ count e s
unfolding remove
count-remove c e [] h = absurd (omega arith)
count-remove c e (d ∷ s) h = ground (arith, count-remove c e s)

-- How many more `c` the counters allow.
abbrev left : List (ℕ × ℤ) → ℕ → ℤ
left counts c = or_else (find counts c) (pos 0)

left-store :
    (counts : List (ℕ × ℤ)) (d e : ℕ) (v : ℤ)
    → left (store counts d v) e ≡ (if d == e then v else left counts e)
left-store counts d e v = ground (arith, find-store counts d e v)

pos_part-dec : (l : ℤ) → pos_part (dec l) ≡ pos_part l - 1
unfolding dec
pos_part-dec (pos zero) = refl
pos_part-dec (pos (suc n)) = omega arith
pos_part-dec (negsuc n) = omega arith

is_positive_of_pos_part : (l : ℤ) → 0 < pos_part l → is_positive l ≡ true
is_positive_of_pos_part (pos (suc n)) h = refl
is_positive_of_pos_part (pos zero) h = absurd (omega arith)
is_positive_of_pos_part (negsuc n) h = absurd (omega arith)

-- A text whose characters stand in `a`, and that the counters allow, is no longer than what
-- the loop of `quickRatio` counts.
length-le-take_units :
    (a : Text) (counts : List (ℕ × ℤ)) (n : ℕ) (m : Text)
    → ((c : ℕ) → count c m ≤ count c a)
    → ((c : ℕ) → count c m ≤ pos_part (left counts c))
    → length m + n ≤ take_units a counts n
unfolding take_units
length-le-take_units [] counts n [] h k = omega arith
length-le-take_units [] counts n (d ∷ m) h k = absurd (ground (arith, h d))
length-le-take_units (d ∷ a) counts n m h k =
    let counts' = store counts d (dec (left counts d)) in
    elim (Bool-cases (ltb 0 (count d m))) [
      | inl e ↦
          let some_d : 0 < count d m = ground arith in
          let ih =
            length-le-take_units a counts' (n + 1) (remove d m)
              (λ c. ground (arith, count-remove d c m, h c))
              (λ c. ground (
                arith,
                count-remove d c m,
                k c,
                left-store counts d c (dec (left counts d)),
                pos_part-dec (left counts d),
              )) in
          rw (is_positive_of_pos_part (left counts d) (omega (arith, k d)))
            (omega (arith, ih, length-remove d m some_d))
      | inr e ↦
          let n' = if is_positive (left counts d) then n + 1 else n in
          let ih =
            length-le-take_units a counts' n' m (λ c. ground (arith, h c))
              (λ c. ground (arith, k c, left-store counts d c (dec (left counts d)))) in
          let grows : n ≤ n' = ground arith in omega (arith, ih)
    ]

left-tally :
    (b : Text) (counts : List (ℕ × ℤ)) (f : ℕ → ℕ)
    → ((c : ℕ) → left counts c ≡ pos (f c))
    → (c : ℕ) → left (tally b counts) c ≡ pos (f c + count c b)
unfolding tally inc
left-tally [] counts f h c = h c ∙ ap pos (omega arith)
left-tally (d ∷ b) counts f h c =
    left-tally b (store counts d (inc (left counts d))) (λ e. if d == e then suc (f d) else f e)
      (λ e. left-store counts d e (inc (left counts d)) ∙ ground (arith, h d, h e)) c
    ∙ ap pos (ground arith)

-- `quickRatio` counts at least the length of every text that both texts share.
pub length-le-quick :
    (a b m : Text)
    → ((c : ℕ) → count c m ≤ count c a)
    → ((c : ℕ) → count c m ≤ count c b)
    → length m ≤ take_units a (tally b []) 0
length-le-quick a b m h k =
    let bound =
      length-le-take_units a (tally b []) 0 m h
        (λ c. ground (arith, k c, left-tally b [] (λ _. 0) (λ e. unfold find in refl) c)) in
    omega (arith, bound)

-- A text is no longer than one that holds its characters at least as often.
pub length-le_of_count : (s m : Text) → ((c : ℕ) → count c m ≤ count c s) → length m ≤ length s
length-le_of_count [] [] h = omega arith
length-le_of_count [] (d ∷ m) h = absurd (ground (arith, h d))
length-le_of_count (d ∷ s) m h = elim (Bool-cases (ltb 0 (count d m))) [
  | inl e ↦
      let some_d : 0 < count d m = ground arith in
      omega (
        arith,
        length-remove d m some_d,
        length-le_of_count s (remove d m) (λ c. ground (arith, count-remove d c m, h c)),
      )
  | inr e ↦ omega (arith, length-le_of_count s m (λ c. ground (arith, h c)))
]
