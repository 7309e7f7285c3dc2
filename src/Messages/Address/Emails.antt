-- ===== src/Messages/Address/Emails.antt =====
-- noyau/messages.ts: the addresses that `emailAddresses` gives.
use paraphe.Common.{Bool, not, ◌&&◌, List, [], ◌∷◌, ◌++◌, Text, ◌≡◌, if◌then◌else◌}
use paraphe.Texte.Controls.{is_nil, trim}
use paraphe.Messages.Address.{is_email, Addresses}

-- The trimmed parts that are not empty and pass a test, in their order.
abbrev pub filled : (Text → Bool) → List Text → List Text
filled test [] = []
filled test (a ∷ parts) =
    if not (is_nil (trim a)) && test (trim a) then trim a ∷ filled test parts else filled test parts

abbrev pub is_rejected : Text → Bool
is_rejected t = not (is_email t)

-- The addresses found in the parts, behind those found before.
abbrev Extends : List Text → Addresses → Addresses → Type 0
Extends parts before after =
    (after.valid ≡ before.valid ++ filled is_email parts)
    × (after.rejected ≡ before.rejected ++ filled is_rejected parts)
