-- ===== src/Crossing/Directory/Cards.antt =====
-- outils/sources.ts: which card of a town hall is kept.
use paraphe.Common.{true, Option, none, some, List, [], Text, text_eq, lookup, Exists, ◌≡◌, codes}
use paraphe.Csv.{Row}
use paraphe.Texte.Controls.{trim}
use paraphe.Texte.Unicode.{Unicode}
use paraphe.Crossing.Entities.{Contact}
use paraphe.Crossing.Directory.{
  Json, text_of, before_or_equal, rank_card, code_of, first_value, json_or_default,
}

module _ (unicode : Unicode) (json : Json) where
  -- The map has a card under the code `k` that comes before the card `name`, or is level with it.
  abbrev pub HasCard : List (Text × Contact) → Text → Text → Type 0
  HasCard contacts k name =
      (c : Contact) × (lookup text_eq contacts k ≡ some c)
      × (before_or_equal (rank_card unicode c.card_name) (rank_card unicode name) ≡ true)

  -- The card says what the row says, in the columns that are read as they are.
  abbrev pub IsCardOf : Contact → Row → Type 0
  IsCardOf c r =
      (c.card_name ≡ text_of r (codes "nom"))
      × (c.email ≡ trim (text_of r (codes "adresse_courriel")))
      × (c.contact_form ≡ trim (text_of r (codes "formulaire_contact")))
      × (c.phone ≡ first_value (json_or_default json (text_of r (codes "telephone")) []))
      × (c.website ≡ first_value (json_or_default json (text_of r (codes "site_internet")) []))

  -- Every card is that of a row of a town hall with the code that it is filed under.
  abbrev pub HasSource : List Row → List (Text × Contact) → Type 0
  HasSource rows contacts =
      (k : Text) (c : Contact)
      → lookup text_eq contacts k ≡ some c
      → Exists (λ r. (code_of json r ≡ some k) × IsCardOf c r) rows

  -- What the directory has for a row that it does not skip.
  abbrev pub IsServed : List (Text × Contact) → Row → Option Text → Type 0
  IsServed contacts r none = Unit {0}
  IsServed contacts r (some k) = HasCard contacts k (text_of r (codes "nom"))
