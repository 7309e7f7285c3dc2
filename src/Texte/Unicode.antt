-- ===== src/Texte/Unicode.antt =====
-- noyau/texte.ts: what the code uses of the character tables of the language.
use paraphe.Common.{ℕ, Bool, Text}

-- `/\p{L}/u`, `toUpperCase`, `toLowerCase`, `normalize("NFD")`, `normalize("NFC")` and `/\p{Mn}/u`.
pub record Unicode : Type 0 where
  pub is_letter : ℕ → Bool
  pub to_upper : Text → Text
  pub to_lower : Text → Text
  pub nfd : Text → Text
  pub nfc : Text → Text
  pub is_mark : ℕ → Bool
