-- ===== src/Crossing/Entities.antt =====
-- outils/sources.ts and outils/matching.ts: what the three sources say, and who has endorsed.
use paraphe.Common.{ℕ, Option, List, Text}

pub record Endorsement : Type 0 where
  pub year : ℕ
  pub civ : Text
  pub last_name : Text
  pub first_name : Text
  pub office : Text
  pub commune : Text
  pub dept : Text
  pub candidate : Text

pub record Official : Type 0 where
  pub dept : Text
  pub insee : Text
  pub commune : Text
  pub last_name : Text
  pub first_name : Text
  pub sex : Text

pub record Contact : Type 0 where
  pub card_name : Text
  pub email : Text
  pub phone : Text
  pub street : Text
  pub zip : Text
  pub city : Text
  pub website : Text
  pub contact_form : Text
  pub hours : Text

-- The `Set` of years is the list of its members, in the order in which they were added.
pub record Person : Type 0 where
  pub civ : Text
  pub last_name : Text
  pub first_name : Text
  pub commune : Text
  pub dept : Text
  pub office : Text
  pub small : List Text
  pub others : List Text
  pub years : List ℕ
  pub score : ℕ
  pub status : Option Text
  pub commune_insee : Option Text
  pub dept_n : Text
  pub commune_n : Text

-- `Target` extends `Person`, which is the field `person`.
pub record Target : Type 0 where
  pub person : Person
  pub rne : Official
  pub contact : Option Contact
  pub conf : Text
