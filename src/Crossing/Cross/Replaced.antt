-- ===== src/Crossing/Cross/Replaced.antt =====
-- outils/build.ts: who is said to have been replaced.
use paraphe.Common.{Bool, true, false, Option, some, Text, ◌>>=◌, ◌≡◌}
use paraphe.Texte.Unicode.{Unicode}
use paraphe.Crossing.Entities.{Official, Person}
use paraphe.Crossing.Identity.{different, compare_identity}
use paraphe.Crossing.Match.{Places, Outcome, replaced, find_row}

abbrev is_replaced : Outcome → Bool
is_replaced (replaced insee) = true
is_replaced _ = false

module _ (unicode : Unicode) (rec : Person) (places : Places) where
  -- The signed commune is in the register, not by likeness, under somebody else with this code.
  abbrev pub HasSuccessor : Text → Type 0
  HasSuccessor insee =
      (row : Official) × (find_row unicode rec places.rne
        ≡ some (record { row = some row; approx = false }))
      × (compare_identity unicode rec row ≡ some different)
      × (row.insee ≡ insee)

  abbrev Explained : Bool → Option Official → Outcome → Type 0
  Explained approx row (replaced insee) =
      (r : Official) × (row ≡ some r)
      × (approx ≡ false)
      × (compare_identity unicode rec r ≡ some different)
      × (r.insee ≡ insee)
  Explained approx row _ = Unit {0}
