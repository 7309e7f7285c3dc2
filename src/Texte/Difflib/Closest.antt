-- ===== src/Texte/Difflib/Closest.antt =====
-- noyau/texte.ts: the answer of `closestMatch`.
use paraphe.Common.{
  ◌+◌, ◌<◌, Bool, true, false, not, ◌&&◌, ◌||◌, Option, none, some, List, [], ◌∷◌, Text,
  if◌then◌else◌, length, ◌≡◌, refl, arith, Bool-cases, inl, inr, All, ◌⊎◌, any, text_eq,
  text_eq_self,
}
use paraphe.Texte.Difflib.{Score, below, text_gt, Best, is_better, accept, closest_match}
use paraphe.Texte.Difflib.Bounds.{over_total-pos}
use paraphe.Texte.Difflib.Filters.{
  similarity, pick, below-trans_le, pick_all, consider_all-pick_all,
}

-- `x` is a better answer than `y`: a greater ratio, or an equal one and a greater text.
abbrev pub beats : Text → Text → Text → Bool
beats word x y =
    below (similarity y word) (similarity x word)
    || (not (below (similarity x word) (similarity y word)) && text_gt x y)

similarity-pos : (x word : Text) → 0 < (similarity x word).den
unfolding similarity
similarity-pos x word = over_total-pos _ (length x + length word)

text_gt_trans : (x y z : Text) → text_gt x y ≡ true → text_gt y z ≡ true → text_gt x z ≡ true
unfolding text_gt
text_gt_trans [] y z h k = absurd (ground arith)
text_gt_trans (c ∷ x) [] z h k = absurd (ground arith)
text_gt_trans (c ∷ x) (d ∷ y) [] h k = refl
text_gt_trans (c ∷ x) (d ∷ y) (e ∷ z) h k = ground (arith, text_gt_trans x y z)

below-asym : (x y : Score) → below x y ≡ true → below y x ≡ false
unfolding below
below-asym x y h = ground arith

below-trans_ge :
    (x y z : Score)
    → 0 < x.den
    → 0 < y.den
    → below x y ≡ false
    → below y z ≡ false
    → below x z ≡ false
below-trans_ge x y z p q h k = elim (Bool-cases (below x z)) [
  | inr e ↦ e
  | inl e ↦ cc (below-trans_le y x z q p h e)
]

below-trans_lt :
    (x y z : Score)
    → 0 < x.den
    → 0 < z.den
    → below x y ≡ true
    → below z y ≡ false
    → below x z ≡ true
below-trans_lt x y z p q h k = elim (Bool-cases (below x z)) [
  | inl e ↦ e
  | inr e ↦ cc (below-trans_ge x z y p q e k)
]

text_gt_irrefl : (x : Text) → text_gt x x ≡ false
unfolding text_gt
text_gt_irrefl [] = refl
text_gt_irrefl (c ∷ x) = ground (arith, text_gt_irrefl x)

below_irrefl : (x : Score) → below x x ≡ false
unfolding below
below_irrefl x = ground arith

module _ (word : Text) where
  -- What does not beat `y` does not beat what beats `y`.
  beats_trans :
      (x y z : Text) → beats word x y ≡ false → beats word z y ≡ true → beats word x z ≡ false
  beats_trans x y z h k =
      let sx = similarity x word in
      let sy = similarity y word in
      let sz = similarity z word in
      let px = similarity-pos x word in
      let py = similarity-pos y word in
      let pz = similarity-pos z word in
      ground (
        arith,
        below-trans_le sx sy sz px py,
        below-asym sx sz,
        below-trans_ge sz sy sx pz py,
        below-trans_lt sx sy sz px pz,
        text_gt_trans x z y,
      )

  beats_irrefl : (x : Text) → beats word x x ≡ false
  beats_irrefl x = ground (arith, below_irrefl (similarity x word), text_gt_irrefl x)

  module _ (cutoff : Score) where
    -- The answer to a search through `seen`: none if every ratio is below the cutoff; otherwise one
    -- of the texts, with a ratio not below it, that no other such text beats.
    abbrev pub IsClosest : Option Text → List Text → Type 0
    IsClosest none seen = All (λ x. below (similarity x word) cutoff ≡ true) seen
    IsClosest (some y) seen =
        (any (text_eq y) seen ≡ true)
        × (below (similarity y word) cutoff ≡ false)
        × All (λ x. (below (similarity x word) cutoff ≡ true) ⊎ (beats word x y ≡ false)) seen

    -- `bestScore` is the ratio of `best`.
    abbrev IsTop : Option Text → Score → Type 0
    IsTop none top = Unit {0}
    IsTop (some y) top = top ≡ similarity y word

    abbrev Holds : Best → List Text → Type 0
    Holds best seen = IsClosest best.found seen × IsTop best.found best.top

    All-beaten :
        (x y : Text) (seen : List Text)
        → beats word x y ≡ true
        → All (λ s. (below (similarity s word) cutoff ≡ true) ⊎ (beats word s y ≡ false)) seen
        → All (λ s. (below (similarity s word) cutoff ≡ true) ⊎ (beats word s x ≡ false)) seen
    All-beaten x y [] b h = tt
    All-beaten x y (s ∷ seen) b (inl h, hs) = (inl h, All-beaten x y seen b hs)
    All-beaten x y (s ∷ seen) b (inr h, hs) =
        (inr (beats_trans s y x h b), All-beaten x y seen b hs)

    All-below :
        (x : Text) (seen : List Text)
        → All (λ s. below (similarity s word) cutoff ≡ true) seen
        → All (λ s. (below (similarity s word) cutoff ≡ true) ⊎ (beats word s x ≡ false)) seen
    All-below x [] h = tt
    All-below x (s ∷ seen) (h, hs) = (inl h, All-below x seen hs)

    pick-Holds :
        (x : Text) (found : Option Text) (top : Score) (seen : List Text)
        → Holds (record { found = found; top = top }) seen
        → Holds (pick word cutoff x (record { found = found; top = top })) (x ∷ seen)
    unfolding pick accept is_better
    pick-Holds x found top seen h = elim (Bool-cases (below (similarity x word) cutoff)) [
      | inl e ↦ rw e (low found h e)
      | inr e ↦ rw e (high found h e)
    ]
      where
        low :
            (found : Option Text)
            → IsClosest found seen × IsTop found top
            → below (similarity x word) cutoff ≡ true
            → IsClosest found (x ∷ seen) × IsTop found top
        low none (h, t) e = ((e, h), t)
        low (some y) ((m, c, h), t) e = ((ground arith, c, (inl e, h)), t)

        high :
            (found : Option Text)
            → IsClosest found seen × IsTop found top
            → below (similarity x word) cutoff ≡ false
            → Holds
                (if is_better x (similarity x word) (record { found = found; top = top })
                  then record { found = some x; top = similarity x word }
                  else record { found = found; top = top })
                (x ∷ seen)
        high none (h, t) e =
            ((ground (arith, text_eq_self x), e, (inr (beats_irrefl x), All-below x seen h)), refl)
        high (some y) ((m, c, h), t) e = rw t (elim (Bool-cases (beats word x y)) [
          | inl b ↦ rw b (
            (ground (arith, text_eq_self x), e, (inr (beats_irrefl x), All-beaten x y seen b h)),
            refl,
          )
          | inr b ↦ rw b ((ground arith, c, (inr b, h)), refl)
        ])

    -- The texts in the order in which the loop has met them, the last first.
    met : List Text → List Text → List Text
    met [] seen = seen
    met (x ∷ xs) seen = met xs (x ∷ seen)

    pick_all-Holds :
        (xs : List Text) (best : Best) (seen : List Text)
        → Holds best seen
        → Holds (pick_all word cutoff xs best) (met xs seen)
    unfolding pick_all met
    pick_all-Holds [] best seen h = h
    pick_all-Holds (x ∷ xs) best seen h =
        pick_all-Holds xs (pick word cutoff x best) (x ∷ seen)
          (pick-Holds x best.found best.top seen h)

    All-met :
        (P : Text → Type 0) (xs seen : List Text) → All P (met xs seen) → All P xs × All P seen
    unfolding met
    All-met P [] seen h = (tt, h)
    All-met P (x ∷ xs) seen h = let (hs, (hx, rest)) = All-met P xs (x ∷ seen) h in ((hx, hs), rest)

    any-met : (p : Text → Bool) (xs seen : List Text) → any p (met xs seen) ≡ any p xs || any p seen
    unfolding met
    any-met p [] seen = refl
    any-met p (x ∷ xs) seen = ground (arith, any-met p xs (x ∷ seen))

    IsClosest-met :
        (found : Option Text) (xs : List Text) → IsClosest found (met xs []) → IsClosest found xs
    IsClosest-met none xs h = (All-met _ xs [] h).0
    IsClosest-met (some y) xs (m, c, h) =
        (ground (arith, any-met (text_eq y) xs []), c, (All-met _ xs [] h).0)

-- `closestMatch` ends and finds the closest text, although it filters by length and by
-- `quickRatio`: no text if every possibility has a ratio below the cutoff, and otherwise a
-- possibility that is not below it and that no other such possibility beats, by its ratio or, at
-- an equal ratio, as the greater text.
pub closest_match-IsClosest :
    (word : Text) (possibilities : List Text) (cutoff : Score)
    → (found : Option Text) × (closest_match word possibilities cutoff ≡ some found)
      × IsClosest word cutoff found possibilities
unfolding closest_match
closest_match-IsClosest word possibilities cutoff =
    let start : Best = record { found = none; top = record { num = 0; den = 1 } } in
    let best = pick_all word cutoff possibilities start in
    let (closest, _) = pick_all-Holds word cutoff possibilities start [] (tt, tt) in
    (
      best.found,
      rw (consider_all-pick_all word cutoff possibilities start),
      IsClosest-met word cutoff best.found possibilities closest,
    )
