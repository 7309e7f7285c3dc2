-- ===== src/Crossing/Persons/Scores.antt =====
-- outils/build.ts and outils/matching.ts: the score of a person, added up and by the formula.
use paraphe.Common.{
  ℕ, ◌+◌, ◌*◌, Bool, true, false, not, ◌&&◌, Option, none, some, List, [], ◌∷◌, ◌++◌, map, Text,
  codes, any, all, length, length-keep-append, text_eq, text_eq_iff, leb, ==_iff, ◌==◌,
  if◌then◌else◌, or_else, includes, starts_with, decimal, digits_from, lookup, All, AllEntries,
  insert-AllEntries, lookup-AllEntries, bind-some, ◌≡◌, refl, subst, ◌∙◌, inl, inr, ◌⊎◌, Bool-cases,
  arith,
}
use mathlib.Core.Option.{some-injective}
use paraphe.Texte.Unicode.{Unicode}
use paraphe.Crossing.Entities.{Endorsement, Person}
use paraphe.Crossing.Identity.{Key, same_key, key_among}
use paraphe.Crossing.Identity.Names.{same_key_iff}
use paraphe.Crossing.Dedupe.{with_class, score_of}
use paraphe.Crossing.Persons.{
  tier_a, tier_b, tag_of, sign, with_bonus, has_small, targets_of, new_person, file_mayor,
  file_endorsement, file_endorsements,
}

abbrev tagged : ℕ → Text → Text → Text
tagged y c mark = (decimal y ++ (codes ": " ++ c)) ++ mark

abbrev only_a : ℕ → Text → Bool
only_a y c =
    includes (tagged y c (codes " (A)")) (codes "(A)")
    && not (includes (tagged y c (codes " (A)")) (codes "(B)"))

abbrev only_b : ℕ → Text → Bool
only_b y c =
    includes (tagged y c (codes " (B)")) (codes "(B)")
    && not (includes (tagged y c (codes " (B)")) (codes "(A)"))

all-any :
    (q : Text → Bool) (xs : List Text) (c : Text)
    → all q xs ≡ true
    → any (text_eq c) xs ≡ true
    → q c ≡ true
all-any q [] c h e = cc
all-any q (x ∷ xs) c h e = elim (Bool-cases (text_eq c x)) [
  | inl k ↦ rw ((text_eq_iff c x).0 k) (ground arith)
  | inr k ↦ all-any q xs c (ground arith) (ground arith)
]

-- The configuration has no other year.
other_year : (y : ℕ) → ((y ≡ 2022) ⊎ (y ≡ 2017)) ⊎ ((tier_a y ≡ []) × (tier_b y ≡ []))
unfolding tier_a tier_b
other_year y = elim (Bool-cases (y == 2022)) [
  | inl e ↦ inl (inl ((==_iff y 2022).0 e))
  | inr e ↦ elim (Bool-cases (y == 2017)) [
    | inl f ↦ inl (inr ((==_iff y 2017).0 f))
    | inr f ↦ rw (e, f) (inr (refl, refl))
  ]
]

tags_of_year :
    (y : ℕ)
    → (y ≡ 2022) ⊎ (y ≡ 2017)
    → (all (only_a y) (tier_a y) ≡ true) × (all (only_b y) (tier_b y) ≡ true)
unfolding tier_a tier_b includes starts_with decimal digits_from
tags_of_year y (inl e) = rw e (refl, refl)
tags_of_year y (inr e) = rw e (refl, refl)

tags : (y : ℕ) → (all (only_a y) (tier_a y) ≡ true) × (all (only_b y) (tier_b y) ≡ true)
tags y = elim (other_year y) [ inl e ↦ tags_of_year y e | inr (a, b) ↦ rw (a, b) (refl, refl) ]

-- The score without the bonus.
abbrev IsScored : Person → Type 0
IsScored v = v.score ≡ 2 * with_class (codes "(A)") v.small + with_class (codes "(B)") v.small

with_class-append :
    (class : Text) (small : List Text) (t : Text)
    → with_class class (small ++ t ∷ [])
      ≡ with_class class small + (if includes t class then 1 else 0)
with_class-append class small t =
    ground (arith, length-keep-append (λ t. includes t class) small (t ∷ []))

added :
    (own other : Text) (small : List Text) (t : Text)
    → includes t own && not (includes t other) ≡ true
    → (with_class own (small ++ t ∷ []) ≡ with_class own small + 1)
      × (with_class other (small ++ t ∷ []) ≡ with_class other small)
added own other small t h =
    (with_class-append own small t ∙ ground arith, with_class-append other small t ∙ ground arith)

sign-IsScored : (p : Endorsement) (v : Person) → IsScored v → IsScored (sign p v)
unfolding sign tag_of
sign-IsScored p v h = elim (Bool-cases (any (text_eq p.candidate) (tier_a p.year))) [
  | inl e ↦
      let known = all-any (only_a p.year) (tier_a p.year) p.candidate (tags p.year).0 e in
      let (own, other) =
        added (codes "(A)") (codes "(B)") v.small (tagged p.year p.candidate (codes " (A)"))
          known in
      rw e (omega (arith, h, own, other))
  | inr e ↦ rw e (elim (Bool-cases (any (text_eq p.candidate) (tier_b p.year))) [
    | inl f ↦
        let known = all-any (only_b p.year) (tier_b p.year) p.candidate (tags p.year).1 f in
        let (own, other) =
          added (codes "(B)") (codes "(A)") v.small (tagged p.year p.candidate (codes " (B)"))
            known in
        rw f (omega (arith, h, own, other))
    | inr f ↦ rw f h
  ])
]

with_bonus-score :
    (v : Person)
    → IsScored v
    → (with_bonus v).score ≡ score_of (with_bonus v).small (with_bonus v).years
unfolding with_bonus score_of
with_bonus-score v h = elim (Bool-cases (leb 2 (length v.years))) [
  | inl e ↦ rw e (rw e (omega (arith, h)))
  | inr e ↦ rw e (rw e (omega (arith, h)))
]

abbrev HasScore : Person → Type 0
HasScore v = v.score ≡ score_of v.small v.years

kept_target :
    (b : Bool) (v : Person) (vs : List Person)
    → HasScore (with_bonus v)
    → All HasScore (map with_bonus vs)
    → All HasScore (map with_bonus (elim b [ true ↦ v ∷ vs | false ↦ vs ]))
kept_target true v vs p h = (p, h)
kept_target false v vs p h = h

targets-score :
    (persons : List (Key × Person))
    → AllEntries same_key same_key_iff (λ k v. IsScored v) persons
    → All HasScore (targets_of persons)
unfolding targets_of
targets-score [] h = tt
targets-score ((k, v) ∷ persons) (p, h) =
    kept_target (has_small v) v _ (with_bonus-score v p) (targets-score persons h)

module _ (unicode : Unicode) where
  abbrev Scored : List (Key × Person) → Type 0
  Scored persons = AllEntries same_key same_key_iff (λ k v. IsScored v) persons

  signed-IsScored :
      (p : Endorsement) (persons : List (Key × Person)) (k : Key) (found : Option Person)
      → Scored persons
      → lookup same_key persons k ≡ found
      → IsScored (sign p (or_else found (new_person unicode p)))
  unfolding new_person
  signed-IsScored p persons k none h l = sign-IsScored p (new_person unicode p) refl
  signed-IsScored p persons k (some v) h l =
      sign-IsScored p v
        (lookup-AllEntries same_key same_key_iff (λ k v. IsScored v) persons k v h l)

  file_mayor-Scored :
      (p : Endorsement) (persons after : List (Key × Person))
      → Scored persons
      → file_mayor unicode p persons ≡ some after
      → Scored after
  unfolding file_mayor
  file_mayor-Scored p persons after h e =
      let (k, f, g) = bind-some (key_among unicode p persons) _ after e in
      subst Scored (some-injective _ after g) (
        insert-AllEntries same_key same_key_iff (λ k v. IsScored v) persons k _
          (signed-IsScored p persons k _ h refl) h)

  file_endorsement-Scored :
      (p : Endorsement) (persons after : List (Key × Person))
      → Scored persons
      → file_endorsement unicode p persons ≡ some after
      → Scored after
  unfolding file_endorsement
  file_endorsement-Scored p persons after h e =
      let chosen =
        λ (b : Bool). (if b then some persons else file_mayor unicode p persons) ≡ some after in
      elim (Bool-cases (not (starts_with p.office (codes "Maire")))) [
        | inl q ↦ subst Scored (some-injective persons after (subst chosen q e)) h
        | inr q ↦ file_mayor-Scored p persons after h (subst chosen q e)
      ]

  file_endorsements-Scored :
      (ps : List Endorsement) (persons after : List (Key × Person))
      → Scored persons
      → file_endorsements unicode ps persons ≡ some after
      → Scored after
  unfolding file_endorsements
  file_endorsements-Scored [] persons after h e = subst Scored (some-injective persons after e) h
  file_endorsements-Scored (p ∷ ps) persons after h e =
      let (next, f, g) = bind-some (file_endorsement unicode p persons) _ after e in
      file_endorsements-Scored ps next after (file_endorsement-Scored p persons next h f) g

  -- What the aggregation adds up for a target, endorsement by endorsement and with the bonus, is the
  -- formula of the score on the tags that are listed: two for every tag of the class (A), one for
  -- every one of (B), and one if there are two years. A tag that is listed twice counts twice.
  pub targets_of-score :
      (ps : List Endorsement) (persons : List (Key × Person))
      → file_endorsements unicode ps [] ≡ some persons
      → All (λ v. v.score ≡ score_of v.small v.years) (targets_of persons)
  targets_of-score ps persons e =
      targets-score persons (file_endorsements-Scored ps [] persons tt e)
