-- ===== src/Crossing/Cross.antt =====
-- outils/build.ts: the crossing of the endorsers with the register, from end to end.
pub mod Accounts
pub mod Confirmed
pub mod Replaced
use paraphe.Common.{
  ℕ, ◌+◌, Bool, true, false, not, Option, none, some, List, [], ◌∷◌, ◌++◌, Text, codes, text_eq,
  if◌then◌else◌, or_else, ◌||◌, ◌>>=◌, lookup, insert,
}
use paraphe.Texte.Unicode.{Unicode}
use paraphe.Crossing.Entities.{Endorsement, Contact, Person, Target}
use paraphe.Crossing.Sources.{Rne}
use paraphe.Crossing.Dedupe.{dedupe_by_insee}
use paraphe.Crossing.Persons.{check_tiers, file_endorsements, targets_of}
use paraphe.Crossing.Match.{Places, places_of, Outcome, still_mayor, replaced, to_check, classify}

-- `stillMayor`, `former`, `unmatched` and `stats`.
pub record Crossed : Type 0 where
  pub still_mayors : List Target
  pub former : List Person
  pub unmatched : List Person
  pub stats : List (Text × ℕ)

abbrev pub nothing_crossed : Crossed
nothing_crossed = record { still_mayors = []; former = []; unmatched = []; stats = [] }

-- What a round of the loop counts.
unfoldable pub stat_of : Outcome → Text
stat_of (still_mayor row conf) =
    if text_eq conf (codes "exact") || text_eq conf (codes "commune approchée")
    then codes "même commune, même maire"
    else codes "retrouvé par nom"
stat_of (replaced insee) = codes "commune trouvée, maire différent"
stat_of (to_check status) = codes "à vérifier à la main"

-- `count`
unfoldable pub add_stat : Text → List (Text × ℕ) → List (Text × ℕ)
add_stat k stats = insert text_eq stats k (or_else (lookup text_eq stats k) 0 + 1)

-- The three lists after a round of the loop.
unfoldable pub settle : List (Text × Contact) → Person → Outcome → Crossed → Crossed
settle contacts rec (still_mayor row conf) x = record x {
  still_mayors =
      x.still_mayors
      ++ record {
        person = rec;
        rne = row;
        contact = lookup text_eq contacts row.insee;
        conf = conf;
      }
        ∷ [];
  stats = add_stat (stat_of (still_mayor row conf)) x.stats;
}
settle contacts rec (replaced insee) x = record x {
  former =
      x.former
      ++ record rec {
        status = some (codes "plus maire (successeur en place)");
        commune_insee = some insee;
      }
        ∷ [];
  stats = add_stat (stat_of (replaced insee)) x.stats;
}
settle contacts rec (to_check status) x = record x {
  unmatched = x.unmatched ++ record rec { status = some status } ∷ [];
  stats = add_stat (stat_of (to_check status)) x.stats;
}

-- What is crossed, with one row per INSEE code.
pub record Result : Type 0 where
  pub targets : List Person
  pub kept : List Target
  pub merged_spellings : ℕ
  pub crossed : Crossed

module _ (unicode : Unicode) where
  -- The loop over the targets; `none` is an error.
  unfoldable pub cross : Places → List Person → Crossed → Option Crossed
  cross places [] x = some x
  cross places (rec ∷ targets) x = do
    outcome ← classify unicode places rec
    cross places targets (settle places.contacts rec outcome x)

  -- `main` from the matching to the writing of the files; `none` is an error.
  unfoldable pub cross_targets : List Person → Rne → List (Text × Contact) → Option Result
  cross_targets targets rne contacts = do
    x ← cross (places_of unicode rne contacts) targets nothing_crossed
    (kept, merged) ← dedupe_by_insee unicode x.still_mayors
    some (record { targets = targets; kept = kept; merged_spellings = merged; crossed = x })

  -- `main` from the loading of the sources to the writing of the files; `none` is an error.
  unfoldable pub cross_sources : List Endorsement → Rne → List (Text × Contact) → Option Result
  cross_sources endorsements rne contacts = if not (check_tiers endorsements) then none else do
    persons ← file_endorsements unicode endorsements []
    cross_targets (targets_of persons) rne contacts
