-- ===== src/Texte/Difflib/Blocks.antt =====
-- noyau/texte.ts, `longestMatch`: the block that it returns is common to both texts.
use paraphe.Common.{
  ℕ, zero, suc, ◌+◌, ◌-◌, ◌≤◌, ◌<◌, some, List, [], ◌∷◌, ◌++◌, Text, ltb, leb, ◌==◌, if◌then◌else◌,
  get_elem?, ◌≡◌, refl, sym, ap, ◌∙◌, arith, All, Option-cases, Bool-cases, inl, inr,
}
use paraphe.Texte.Difflib.{
  find, positions, Block, Search, length_before, visit, visit_all, search_rows, Window,
  longest_match,
}
use paraphe.Texte.Difflib.Slices.{slice, slice_to, find-store, IsIndex}

module _ (a b : Text) (w : Window) where
  -- The `k` characters before the position `i` of `a` are those before the position `j` of `b`,
  -- inside the window.
  abbrev Ends : ℕ → ℕ → ℕ → Type 0
  Ends i j k =
      (w.alo + k ≤ i)
      × (i ≤ w.ahi)
      × (w.blo + k ≤ j)
      × (j ≤ w.bhi)
      × (slice a (i - k) k ≡ slice b (j - k) k)

  -- A block of equal characters, inside the window.
  pub record IsCommon (m : Block) : Type 0 where
    pub from_a : w.alo ≤ m.start_a
    pub to_a : m.start_a + m.size ≤ w.ahi
    pub from_b : w.blo ≤ m.start_b
    pub to_b : m.start_b + m.size ≤ w.bhi
    pub same : slice a m.start_a m.size ≡ slice b m.start_b m.size

  -- What `j2len` holds when the row `i` begins.
  abbrev IsRow : ℕ → List (ℕ × ℕ) → Type 0
  IsRow i f = (j k : ℕ) → find f j ≡ some k → Ends i (suc j) k

  length_before-Ends :
      (f : List (ℕ × ℕ)) (i j : ℕ)
      → IsRow i f
      → w.alo ≤ i
      → i ≤ w.ahi
      → w.blo ≤ j
      → j ≤ w.bhi
      → Ends i j (length_before f j)
  unfolding length_before
  length_before-Ends f i zero row p q r t = (omega arith, q, omega arith, t, refl)
  length_before-Ends f i (suc j) row p q r t = elim (Option-cases (find f j)) [
    | inl e ↦ rw e (omega arith, q, omega arith, t, refl)
    | inr (k, e) ↦ rw e (row j k e)
  ]

  Ends-suc :
      (i j k c : ℕ)
      → get_elem? a i ≡ some c
      → get_elem? b j ≡ some c
      → i < w.ahi
      → j < w.bhi
      → Ends i j k
      → Ends (i + 1) (j + 1) (k + 1)
  Ends-suc i j k c ga gb hi hj (p, q, r, t, e) = (
    omega arith,
    omega arith,
    omega arith,
    omega arith,
    slice_to a i k c (omega arith) ga
        ∙ (ap (λ t. t ++ c ∷ []) e ∙ sym (slice_to b j k c (omega arith) gb)),
  )

  visit-IsRow :
      (f : List (ℕ × ℕ)) (i j c : ℕ) (s : Search)
      → get_elem? a i ≡ some c
      → get_elem? b j ≡ some c
      → w.alo ≤ i
      → i < w.ahi
      → w.blo ≤ j
      → j < w.bhi
      → IsRow i f
      → IsCommon s.best × IsRow (i + 1) s.fresh
      → IsCommon (visit i f j s).best × IsRow (i + 1) (visit i f j s).fresh
  unfolding visit
  visit-IsRow f i j c s ga gb p q r t row (best, fresh) =
      let k = length_before f j in
      let ends : Ends (i + 1) (j + 1) (k + 1) =
        Ends-suc i j k c ga gb q t (length_before-Ends f i j row p (omega arith) r (omega arith)) in
      (
        elim (Bool-cases (ltb s.best.size (k + 1))) [
          | inl e ↦ rw e (block (i + 1) (j + 1) (k + 1) ends)
          | inr e ↦ rw e best
        ],
        λ j' k' e. grown j' k' ends (rw (find-store s.fresh j j' (k + 1)) at e),
      )
    where
      block :
          (i j k : ℕ)
          → Ends i j k
          → IsCommon (record { start_a = i - k; start_b = j - k; size = k })
      block i j k (p, q, r, t, e) = record {
        from_a = omega arith;
        to_a = omega arith;
        from_b = omega arith;
        to_b = omega arith;
        same = e;
      }

      grown :
          (j' k' : ℕ)
          → Ends (i + 1) (j + 1) (length_before f j + 1)
          → (if j == j' then some (length_before f j + 1) else find s.fresh j') ≡ some k'
          → Ends (i + 1) (suc j') k'
      grown j' k' ends e = elim (Bool-cases (j == j')) [
        | inl h ↦
            let same : j + 1 ≡ suc j' = ground arith in
            let size : length_before f j + 1 ≡ k' = ground arith in rw (← same, ← size) ends
        | inr h ↦ fresh j' k' (rw h at e)
      ]

  visit_all-IsRow :
      (f : List (ℕ × ℕ)) (i c : ℕ) (js : List ℕ) (s : Search)
      → get_elem? a i ≡ some c
      → All (λ j. get_elem? b j ≡ some c) js
      → w.alo ≤ i
      → i < w.ahi
      → IsRow i f
      → IsCommon s.best × IsRow (i + 1) s.fresh
      → IsCommon (visit_all w.blo w.bhi i f js s).best
        × IsRow (i + 1) (visit_all w.blo w.bhi i f js s).fresh
  unfolding visit_all
  visit_all-IsRow f i c [] s ga _ p q row h = h
  visit_all-IsRow f i c (j ∷ js) s ga (gb, gbs) p q row h = elim (Bool-cases (ltb j w.blo)) [
    | inl e ↦ rw e (visit_all-IsRow f i c js s ga gbs p q row h)
    | inr e ↦ rw e (elim (Bool-cases (leb w.bhi j)) [
      | inl e' ↦ rw e' h
      | inr e' ↦ rw e' (
          visit_all-IsRow f i c js (visit i f j s) ga gbs p q row
            (visit-IsRow f i j c s ga gb p q (ground arith) (ground arith) row h))
    ])
  ]

  module _ (b2j : List (ℕ × List ℕ)) (index : IsIndex b b2j) where
    visit_positions :
        (i : ℕ) (s : Search)
        → w.alo ≤ i
        → i < w.ahi
        → IsCommon s.best
        → IsRow i s.fresh
        → IsCommon
            (visit_all w.blo w.bhi i s.fresh
              (positions a b2j i)
              (record { best = s.best; fresh = [] })).best
          × IsRow
              (i + 1)
              (visit_all w.blo w.bhi i s.fresh
                (positions a b2j i)
                (record { best = s.best; fresh = [] })).fresh
    unfolding positions find
    visit_positions i s p q best row = elim (Option-cases (get_elem? a i)) [
      | inl e ↦ rw (e, positions) (unfold visit_all in (best, λ j k h. cc))
      | inr (c, e) ↦
          rw (e, positions)
            (visit_all-IsRow s.fresh i c _ _ e (index c) p q row (best, λ j k h. cc))
    ]

    search_rows-IsCommon :
        (n i : ℕ) (s : Search)
        → w.alo ≤ i
        → i + n ≤ w.ahi
        → IsCommon s.best
        → IsRow i s.fresh
        → IsCommon (search_rows a b2j w.blo w.bhi n i s).best
    unfolding search_rows
    search_rows-IsCommon zero i s p q best row = best
    search_rows-IsCommon (suc n) i s p q best row =
        let (best', row') = visit_positions i s p (omega arith) best row in
        search_rows-IsCommon n (i + 1) _ (omega arith) (omega arith) best' row'

    -- `longestMatch` returns a block inside the window whose characters are the same in both texts.
    pub longest_match-IsCommon : w.alo ≤ w.ahi → w.blo ≤ w.bhi → IsCommon (longest_match a b2j w)
    unfolding longest_match find
    longest_match-IsCommon p q =
        search_rows-IsCommon (w.ahi - w.alo) w.alo _ (omega arith) (omega arith)
          (record {
            from_a = omega arith;
            to_a = omega arith;
            from_b = omega arith;
            to_b = omega arith;
            same = refl;
          })
          (λ j k e. cc)
