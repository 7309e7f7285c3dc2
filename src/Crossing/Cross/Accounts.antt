-- ===== src/Crossing/Cross/Accounts.antt =====
-- outils/build.ts: no target of the crossing is lost.
use paraphe.Common.{
  ℕ, suc, ◌+◌, not, some, List, [], ◌∷◌, Text, length, length-append, bind-some, passed-some, ◌≡◌,
  sym, subst, arith,
}
use mathlib.Core.Option.{some-injective}
use paraphe.Texte.Unicode.{Unicode}
use paraphe.Crossing.Entities.{Endorsement, Contact, Person, Target}
use paraphe.Crossing.Sources.{Rne}
use paraphe.Crossing.Dedupe.{dedupe_by_insee}
use paraphe.Crossing.Dedupe.Rows.{dedupe_by_insee-accounts}
use paraphe.Crossing.Persons.{check_tiers, file_endorsements, targets_of}
use paraphe.Crossing.Identity.{Key}
use paraphe.Crossing.Match.{Places, places_of, Outcome, still_mayor, replaced, to_check, classify}
use paraphe.Crossing.Cross.{
  Crossed, Result, nothing_crossed, settle, cross, cross_targets, cross_sources,
}

abbrev settled : Crossed → ℕ
settled x = length x.still_mayors + length x.former + length x.unmatched

settled-settle :
    (contacts : List (Text × Contact)) (rec : Person) (outcome : Outcome) (x : Crossed)
    → settled (settle contacts rec outcome x) ≡ suc (settled x)
unfolding settle
settled-settle contacts rec (still_mayor row conf) x =
    omega (arith, length-append x.still_mayors (_ ∷ []))
settled-settle contacts rec (replaced insee) x = omega (arith, length-append x.former (_ ∷ []))
settled-settle contacts rec (to_check status) x = omega (arith, length-append x.unmatched (_ ∷ []))

accounts :
    (targets : List Person) (x : Crossed) (kept : List Target) (merged : ℕ) (r : Result)
    → some (record { targets = targets; kept = kept; merged_spellings = merged; crossed = x })
      ≡ some r
    → (length kept + merged) + length x.former + length x.unmatched ≡ length targets
    → (length r.kept + r.merged_spellings) + length r.crossed.former + length r.crossed.unmatched
      ≡ length targets
accounts targets x kept merged r m h =
    subst
      (λ q.
        (length q.kept + q.merged_spellings) + length q.crossed.former + length q.crossed.unmatched
        ≡ length targets)
      (some-injective _ r m) h

module _ (unicode : Unicode) where
  settled-cross :
      (places : Places) (targets : List Person) (x y : Crossed)
      → cross unicode places targets x ≡ some y
      → settled y ≡ length targets + settled x
  unfolding cross
  settled-cross places [] x y h = rw (sym (some-injective x y h)) (omega arith)
  settled-cross places (rec ∷ targets) x y h =
      let (outcome, _, k) = bind-some (classify unicode places rec) _ y h in
      let next = settle places.contacts rec outcome x in
      omega
        (arith, settled-cross places targets next y k, settled-settle places.contacts rec outcome x)

  cross_targets-accounts :
      (targets : List Person) (rne : Rne) (contacts : List (Text × Contact)) (r : Result)
      → cross_targets unicode targets rne contacts ≡ some r
      → (length r.kept + r.merged_spellings) + length r.crossed.former + length r.crossed.unmatched
        ≡ length targets
  unfolding cross_targets
  cross_targets-accounts targets rne contacts r h =
      let (x, f, l) =
        bind-some (cross unicode (places_of unicode rne contacts) targets nothing_crossed) _ r h in
      let ((kept, merged), g, m) = bind-some (dedupe_by_insee unicode x.still_mayors) _ r l in
      let all = settled-cross (places_of unicode rne contacts) targets nothing_crossed x f in
      accounts targets x kept merged r m
        (omega (arith, dedupe_by_insee-accounts unicode x.still_mayors kept merged g, all))

  -- The line of control of the report: if the crossing of the endorsers ends without an error, the
  -- mayors it keeps, the spellings it has merged, the former mayors and the endorsers to check by
  -- hand are together as many as the targets, which are the persons with an endorsement of a small
  -- candidate.
  pub cross_sources-accounts :
      (endorsements : List Endorsement) (rne : Rne) (contacts : List (Text × Contact)) (r : Result)
      → cross_sources unicode endorsements rne contacts ≡ some r
      → (persons : List (Key × Person)) × (file_endorsements unicode endorsements [] ≡ some persons)
        × ((length r.kept + r.merged_spellings)
              + length r.crossed.former
              + length r.crossed.unmatched
            ≡ length (targets_of persons))
  unfolding cross_sources
  cross_sources-accounts endorsements rne contacts r h =
      let (persons, e, k) =
        bind-some (file_endorsements unicode endorsements []) _ r
          (passed-some (not (check_tiers endorsements)) _ r h) in
      (persons, e, cross_targets-accounts (targets_of persons) rne contacts r k)
