-- ===== src/Messages/Address.antt =====
-- noyau/messages.ts: the postal address of a mayor, and the addresses of their emails.
pub mod Form
pub mod Emails
use paraphe.Common.{
  ℕ, Bool, true, false, not, ◌&&◌, ◌||◌, Option, none, some, List, [], ◌∷◌, ◌++◌, Text, codes, leb,
  ◌==◌, if◌then◌else◌, or_else, any, all, length, ◌>>=◌,
}
use paraphe.Csv.{Row, field, join, lf}
use paraphe.Texte.Controls.{is_space, is_control, is_nil, trim, strip_controls}
use paraphe.Texte.Unicode.{Unicode}
use paraphe.Messages.Words.{cut_at}
use paraphe.Messages.Commune.{elided_commune}
use paraphe.Messages.Rank.{cleaned, mayor_title}
use paraphe.Messages.Fields.{text_or, Options, fields}

unfoldable pub postal_city : Row → Text
unfolding field is_control strip_controls
postal_city mayor =
    let raw = or_else (field mayor (codes "city")) [] in
    if any is_control raw
    then cleaned mayor (codes "commune")
    else text_or (strip_controls (some raw)) (cleaned mayor (codes "commune"))

module _ (unicode : Unicode) where
  unfoldable pub recipient_address : Row → Option Text
  unfolding field strip_controls mayor_title elided_commune postal_city trim join
  recipient_address mayor = do
    title ← mayor_title unicode mayor
    some (
        let street = cleaned mayor (codes "postal_address") in
        join
          ((title
              ++ (codes " — "
                  ++ (cleaned mayor (codes "first_name")
                      ++ (codes " " ++ cleaned mayor (codes "last_name")))))
            ∷ (codes "Mairie " ++ elided_commune unicode (cleaned mayor (codes "commune")))
            ∷ ((if is_nil street then [] else street ∷ [])
                ++ trim (cleaned mayor (codes "postal_code") ++ (codes " " ++ postal_city mayor))
                  ∷ []))
          (lf ∷ []))

  -- A campaign without the key prints `undefined`.
  unfoldable pub letter_header : Row → Row → Options → Option Text
  unfolding field fields
  letter_header mayor cfg opts = do
    ch ← fields unicode mayor cfg opts
    some (
        or_else (field cfg (codes "ville_envoi")) (codes "undefined")
        ++ (codes ", le " ++ or_else (field ch (codes "date")) (codes "undefined")))

-- `[^@\s,;]`
unfoldable pub is_address_char : ℕ → Bool
is_address_char c = not (c == b'@' || is_space c || c == b',' || c == b';')

abbrev pub is_ascii_letter : ℕ → Bool
is_ascii_letter c = (leb 65 c && leb c 90) || (leb 97 c && leb c 122)

-- `/[^@\s,;]+\.[A-Za-z]{2,}$/` on a text of such characters, of which some may have been read.
unfoldable pub has_domain_end : Bool → Text → Bool
has_domain_end read [] = false
has_domain_end read (c ∷ s) =
    (c == b'.' && read && leb 2 (length s) && all is_ascii_letter s) || has_domain_end true s

-- `RX_EMAIL.test(t)`
unfoldable pub is_email : Text → Bool
unfolding cut_at is_address_char has_domain_end
is_email t = elim (cut_at t (b'@' ∷ [])) [
  | none ↦ false
  | some (local, domain) ↦
      not (is_nil local)
      && all is_address_char local
      && all is_address_char domain
      && has_domain_end false domain
]

-- `s.split(/[;,]/)`, with the part under way.
unfoldable pub split_addresses : Text → Text → List Text
split_addresses part [] = part ∷ []
split_addresses part (c ∷ s) = elim (c == b';' || c == b',') [
  | true ↦ part ∷ split_addresses [] s
  | false ↦ split_addresses (part ++ c ∷ []) s
]

pub record Addresses : Type 0 where
  pub valid : List Text
  pub rejected : List Text

-- The loop of `emailAddresses`.
unfoldable pub sort_addresses : List Text → Addresses → Addresses
sort_addresses [] found = found
sort_addresses (a ∷ parts) found =
    let t = trim a in
    sort_addresses parts (
      if is_nil t
      then found
      else if is_email t
      then record found { valid = found.valid ++ t ∷ [] }
      else record found { rejected = found.rejected ++ t ∷ [] })

unfoldable pub email_addresses : Row → Addresses
unfolding field strip_controls split_addresses
email_addresses mayor =
    sort_addresses (split_addresses [] (cleaned mayor (codes "email")))
      (record { valid = []; rejected = [] })

abbrev is_digit : ℕ → Bool
is_digit c = leb b'0' c && leb c b'9'

-- The texts of the two answers; `none` is null.
unfoldable pub incomplete_address : Row → Option Text
unfolding field strip_controls postal_city
incomplete_address mayor =
    let code = cleaned mayor (codes "postal_code") in
    if not (length code == 5 && all is_digit code)
    then some (codes "code postal manquant ou invalide")
    else if is_nil (postal_city mayor)
    then some (codes "commune de destination manquante")
    else none
