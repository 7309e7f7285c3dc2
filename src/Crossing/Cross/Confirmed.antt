-- ===== src/Crossing/Cross/Confirmed.antt =====
-- outils/build.ts: who is said to be still a mayor.
use paraphe.Common.{
  Bool, true, false, Option, none, some, List, [], ◌∷◌, Text, text_eq, if◌then◌else◌, or_else,
  lookup, ◌>>=◌, bind-some, All, All-append, Bool-cases, ◌≡◌, sym, subst, inl, inr,
}
use mathlib.Core.Option.{some-injective, none-ne-some}
use paraphe.Texte.Unicode.{Unicode}
use paraphe.Crossing.Entities.{Official, Contact, Person, Target}
use paraphe.Crossing.Identity.{Verdict, ok, unsure, different, is_ok, compare_identity}
use paraphe.Crossing.Match.{
  Places, Outcome, still_mayor, replaced, to_check, find_row, verdict_on, hits_among, is_elsewhere,
  signed_insee, fall_back, judge, classify,
}
use paraphe.Crossing.Cross.{Crossed, settle, cross}

module _ (unicode : Unicode) (rec : Person) where
  abbrev pub IsSame : Official → Type 0
  IsSame r = compare_identity unicode rec r ≡ some ok

  -- An outcome that says who is still a mayor is right about it.
  abbrev pub IsSound : Outcome → Type 0
  IsSound (still_mayor row conf) = IsSame row
  IsSound (replaced insee) = Unit {0}
  IsSound (to_check status) = Unit {0}

  -- The row of the commune, with what was found of its mayor.
  abbrev pub IsJudged : Option Official → Option Verdict → Type 0
  IsJudged none v = v ≡ none
  IsJudged (some row) none = ⊥
  IsJudged (some row) (some v) = compare_identity unicode rec row ≡ some v

  pub verdict_on-IsJudged :
      (row : Option Official) (v : Option Verdict)
      → verdict_on unicode rec row ≡ some v
      → IsJudged row v
  unfolding verdict_on
  verdict_on-IsJudged none v h = sym (some-injective none v h)
  verdict_on-IsJudged (some row) v h =
      let (w, e, k) = bind-some (compare_identity unicode rec row) (λ w. some (some w)) v h in
      subst (IsJudged (some row)) (some-injective (some w) v k) e

  kept_hit :
      (r : Official) (rest : List Official) (v : Verdict)
      → compare_identity unicode rec r ≡ some v
      → All IsSame rest
      → All IsSame (if is_ok v then r ∷ rest else rest)
  kept_hit r rest ok e h = (e, h)
  kept_hit r rest unsure e h = h
  kept_hit r rest different e h = h

  hits_among-IsSame :
      (people hits : List Official) → hits_among unicode rec people ≡ some hits → All IsSame hits
  unfolding hits_among
  hits_among-IsSame [] hits h = subst (All IsSame) (some-injective [] hits h) tt
  hits_among-IsSame (r ∷ people) hits h =
      let (v, e, k) = bind-some (compare_identity unicode rec r) _ hits h in
      let (rest, f, l) =
        bind-some (hits_among unicode rec people)
          (λ rest. some (if is_ok v then r ∷ rest else rest)) hits k in
      subst (All IsSame) (some-injective _ hits l)
        (kept_hit r rest v e (hits_among-IsSame people rest f))

  module _ (places : Places) where
    fall_back-IsSound :
        (row : Option Official) (hits : List Official)
        → All IsSame hits
        → IsSound (fall_back rec places row hits)
    unfolding fall_back
    fall_back-IsSound row [] h = tt
    fall_back-IsSound row (hit ∷ []) (h, _) =
        elim (Bool-cases (is_elsewhere (signed_insee rec places row) hit)) [
          | inl e ↦ rw e tt
          | inr e ↦ rw e h
        ]
    fall_back-IsSound row (hit ∷ hit' ∷ hits) h = tt

    fallen-IsSound :
        (row : Option Official) (outcome : Outcome)
        → (do
          hits ←
              hits_among unicode rec (or_else (lookup text_eq places.rne.by_person rec.dept_n) [])
          some (fall_back rec places row hits))
          ≡ some outcome
        → IsSound outcome
    fallen-IsSound row outcome h =
        let people = or_else (lookup text_eq places.rne.by_person rec.dept_n) [] in
        let (hits, e, k) =
          bind-some (hits_among unicode rec people) (λ hits. some (fall_back rec places row hits))
            outcome h in
        subst IsSound (some-injective _ outcome k)
          (fall_back-IsSound row hits (hits_among-IsSame people hits e))

    judge-IsSound :
        (approx : Bool) (row : Option Official) (v : Option Verdict) (outcome : Outcome)
        → IsJudged row v
        → judge unicode rec places approx row v ≡ some outcome
        → IsSound outcome
    unfolding judge
    judge-IsSound approx none none outcome j h = fallen-IsSound none outcome h
    judge-IsSound approx none (some v) outcome j h = absurd (none-ne-some v (sym j))
    judge-IsSound approx (some row) none outcome j h = absurd j
    judge-IsSound approx (some row) (some ok) outcome j h =
        subst IsSound (some-injective _ outcome h) j
    judge-IsSound approx (some row) (some unsure) outcome j h = fallen-IsSound (some row) outcome h
    judge-IsSound true (some row) (some different) outcome j h = fallen-IsSound (some row) outcome h
    judge-IsSound false (some row) (some different) outcome j h =
        subst IsSound (some-injective _ outcome h) tt

    pub classify-IsSound :
        (outcome : Outcome) → classify unicode places rec ≡ some outcome → IsSound outcome
    unfolding classify
    classify-IsSound outcome h =
        let (found, e, k) = bind-some (find_row unicode rec places.rne) _ outcome h in
        let (v, f, l) = bind-some (verdict_on unicode rec found.row) _ outcome k in
        judge-IsSound found.approx found.row v outcome (verdict_on-IsJudged found.row v f) l

module _ (unicode : Unicode) where
  -- The target is the mayor of the row that it has been matched with.
  abbrev pub IsConfirmed : Target → Type 0
  IsConfirmed t = compare_identity unicode t.person t.rne ≡ some ok

  settle-IsConfirmed :
      (contacts : List (Text × Contact)) (rec : Person) (outcome : Outcome) (x : Crossed)
      → IsSound unicode rec outcome
      → All IsConfirmed x.still_mayors
      → All IsConfirmed (settle contacts rec outcome x).still_mayors
  unfolding settle
  settle-IsConfirmed contacts rec (still_mayor row conf) x s h =
      All-append IsConfirmed x.still_mayors (_ ∷ []) h (s, tt)
  settle-IsConfirmed contacts rec (replaced insee) x s h = h
  settle-IsConfirmed contacts rec (to_check status) x s h = h

  -- Nobody is thanked for the endorsement of somebody else: whatever the sources, every target that
  -- the loop adds to those said to be still mayors is, by `compareIdentity`, the mayor of the row
  -- that it is matched with.
  pub cross-IsConfirmed :
      (places : Places) (targets : List Person) (x y : Crossed)
      → All IsConfirmed x.still_mayors
      → cross unicode places targets x ≡ some y
      → All IsConfirmed y.still_mayors
  unfolding cross
  cross-IsConfirmed places [] x y h e =
      subst (λ z. All IsConfirmed z.still_mayors) (some-injective x y e) h
  cross-IsConfirmed places (rec ∷ targets) x y h e =
      let (outcome, f, k) = bind-some (classify unicode places rec) _ y e in
      cross-IsConfirmed places targets (settle places.contacts rec outcome x) y
        (settle-IsConfirmed places.contacts rec outcome x
          (classify-IsSound unicode rec places outcome f) h)
        k
