-- ===== src/Crossing/Persons/Keys.antt =====
-- outils/build.ts and outils/matching.ts: nobody is given the endorsement of a namesake.
use paraphe.Common.{false, Option, some, List, [], ◌∷◌, Text, AllEntries, ◌≡◌, ◌⊎◌}
use paraphe.Texte.Unicode.{Unicode}
use paraphe.Texte.Norm.{norm}
use paraphe.Crossing.Entities.{Endorsement, Person}
use paraphe.Crossing.Identity.{
  Key, same_key, Verdict, is_different, compare_first_names, person_key,
}
use paraphe.Crossing.Identity.Names.{same_key_iff}

abbrev last_of : Key → Text
last_of (a ∷ b ∷ c ∷ d ∷ e ∷ []) = e
last_of _ = []

-- What of a person goes into the key.
abbrev IsAlike : Person → Person → Type 0
IsAlike v w =
    (v.dept ≡ w.dept)
    × (v.commune ≡ w.commune)
    × (v.last_name ≡ w.last_name)
    × (v.first_name ≡ w.first_name)

module _ (unicode : Unicode) where
  -- The key of a person has no discriminator, or the first name in full.
  abbrev pub IsKeyOf : Key → Person → Type 0
  IsKeyOf k v =
      (d : Text) × (k ≡ person_key unicode v.dept v.commune v.last_name v.first_name d)
      × ((d ≡ []) ⊎ (d ≡ norm unicode v.first_name))

  abbrev pub Keyed : List (Key × Person) → Type 0
  Keyed persons = AllEntries same_key same_key_iff IsKeyOf persons

  -- The first name of a person found under the key of an endorsement does not contradict its own.
  abbrev pub Agrees : Endorsement → Person → Type 0
  Agrees p v =
      (w : Verdict) × (compare_first_names unicode v.first_name p.first_name ≡ some w)
      × (is_different w ≡ false)
