-- ===== src/Prefill.antt =====
-- web/src/prefill.ts: what a browser takes of a campaign that another server offers. Of the block of
-- a campaign, the fields that are read are kept.
pub mod Offers
pub mod Hosts
mod Examples
use paraphe.Common.{
  ℕ, Bool, true, false, not, ◌&&◌, ◌||◌, Option, none, some, List, [], ◌∷◌, ◌++◌, Text, codes,
  text_eq, any, all, keep, take, length, leb, ltb, ◌==◌, if◌then◌else◌, or_else, ◌>>=◌, starts_with,
}
use paraphe.Csv.{Row, field}
use paraphe.Texte.Unicode.{Unicode}
use paraphe.Texte.Controls.{trim, is_nil}
use paraphe.Messages.Unfilled.{
  campaign_keys, personal_keys, template_files, max_template_runes, unfilled_keys,
}

-- A value of unknown type, as far as the code looks at it. An object is its properties by name.
pub data Value : Type 0 where
  text : Text → Value
  object : (Text → Value) → Value
  undefined null other : Value

-- `v?.[key]`
unfoldable pub member : Value → Text → Value
member (object o) key = o key
member _ key = undefined

-- `typeof v === "string"`
unfoldable pub is_text : Value → Bool
is_text (text t) = true
is_text _ = false

-- `typeof v === "string" ? v : ""`
unfoldable pub text_or_empty : Value → Text
text_or_empty (text t) = t
text_or_empty _ = []

-- `!v || typeof v !== "object"` is false.
unfoldable pub is_object : Value → Bool
is_object (object o) = true
is_object _ = false

-- A round of the loop of `offeredTemplates`, on the value of the file and what follows.
unfoldable pub offer_file : Text → Value → Row → Row
offer_file file (text t) rest =
    if is_nil (trim t)
    then rest
    else if ltb max_template_runes (length t)
    then rest
    else (file, t) ∷ rest
offer_file file _ rest = rest

unfoldable pub offer_files : List Text → Value → Row
offer_files [] value = []
offer_files (file ∷ files) value = offer_file file (member value file) (offer_files files value)

unfoldable pub offered_templates : Value → Row
offered_templates value = offer_files template_files value

-- `[a-z0-9]`
unfoldable pub is_alnum : ℕ → Bool
is_alnum c = (leb b'a' c && leb c b'z') || (leb b'0' c && leb c b'9')

unfoldable pub is_slug_char : ℕ → Bool
is_slug_char c = is_alnum c || c == b'-'

-- Between two characters `[a-z0-9]`, from the second on.
unfoldable pub ends_alnum : Text → Bool
ends_alnum [] = false
ends_alnum (c ∷ []) = is_alnum c
ends_alnum (c ∷ d ∷ s) = is_slug_char c && ends_alnum (d ∷ s)

-- `validSlug`
unfoldable pub valid_slug : Text → Bool
valid_slug [] = false
valid_slug (c ∷ s) = is_alnum c && ends_alnum s && leb (length s) 62

-- `ADOPTED_KEYS`
unfoldable pub adopted_keys : List Text
adopted_keys = keep (λ k. not (any (text_eq k) personal_keys)) campaign_keys

abbrev same_at : Row → Row → Text → Bool
same_at a b k = text_eq (or_else (field a k) []) (or_else (field b k) [])

-- `sameAdoptedFields`
unfoldable pub same_adopted_fields : Row → Row → Bool
same_adopted_fields a b = all (same_at a b) adopted_keys

-- `sameTemplates`
unfoldable pub same_templates : Row → Row → Bool
same_templates a b = all (same_at a b) template_files

pub record Adoption : Type 0 where
  pub slug : Text
  pub campaign : Row
  pub templates : Row

-- The properties of `o` under the keys, the empty text where there is no text.
unfoldable pub read_keys : List Text → Value → Row
read_keys [] o = []
read_keys (k ∷ keys) o = (k, text_or_empty (member o k)) ∷ read_keys keys o

-- `readAdoption`
unfoldable pub read_adoption : Value → Option Adoption
read_adoption value =
    let slug = member value (codes "slug") in
    let campaign = member value (codes "campaign") in
    if not (is_object value)
      || not (is_text slug && valid_slug (text_or_empty slug))
      || not (is_object campaign)
    then none
    else some (record {
      slug = text_or_empty slug;
      campaign = read_keys adopted_keys campaign;
      templates = offered_templates (member value (codes "templates"));
    })

-- `requestedSlug`, on what `URLSearchParams` gives for `org` and on the domain of the instance.
unfoldable pub requested_slug : Option Text → Text → Option Text
requested_slug none domain = none
requested_slug (some slug) domain =
    if is_nil slug || is_nil domain || not (valid_slug slug) then none else some slug

-- Where the page was loaded from: `window.location`, the marked domain and the baked one.
pub record Page : Type 0 where
  pub protocol : Text
  pub port : Text
  pub marked : Text
  pub baked : Text

-- `instanceDomain`
unfoldable pub instance_domain : Page → Text
instance_domain page = if is_nil page.marked then page.baked else page.marked

-- `publicCampaignUrl`
unfoldable pub public_campaign_url : Page → Text → Text
public_campaign_url page slug =
    let path = codes "/api/campaign/public" in
    if is_nil page.marked
    then codes "https://" ++ (slug ++ (b'.' ∷ page.baked ++ path))
    else page.protocol
      ++ (codes "//"
          ++ (slug
              ++ (b'.' ∷ page.marked
                  ++ ((if is_nil page.port then [] else b':' ∷ page.port) ++ path))))

-- The address that `fetchCampaign` asks; `none` is an error before any request.
unfoldable pub campaign_url : Page → Text → Option Text
campaign_url page slug =
    if not (valid_slug slug) then none else some (public_campaign_url page slug)

pub record Offer : Type 0 where
  pub slug : Text
  pub name : Text
  pub campaign : Option Row
  pub logo : Text
  pub templates : Row

module _ (unicode : Unicode) (print : Value → Text) where
  -- `unfilledKeys(cfg).length === CAMPAIGN_KEYS.length`
  unfoldable pub untouched_campaign : Row → Bool
  untouched_campaign cfg = length (unfilled_keys unicode cfg) == length campaign_keys

  -- The block of the nine fields: the outer `none` is an error, the inner one an absent block.
  unfoldable pub read_campaign : Value → Bool → Option (Option Row)
  read_campaign undefined named = if not named then none else some none
  read_campaign campaign named =
      let cfg = read_keys campaign_keys campaign in
      if not (
        is_object campaign
        && all (λ k. is_text (member campaign k)) campaign_keys
        && length (unfilled_keys unicode cfg) == 0)
      then none
      else some (some cfg)

  -- `logo`
  unfoldable pub read_logo : Value → Text
  read_logo offered =
      let t = text_or_empty offered in
      let start = unicode.to_lower (take 8 t) in
      if starts_with start (codes "http://") || starts_with start (codes "https://") then t else []

  -- `String(answer?.name ?? which)`, where `print` is `String` on other values.
  unfoldable pub read_name : Value → Text → Text
  read_name (text t) which = t
  read_name undefined which = which
  read_name null which = which
  read_name v which = print v

  -- `readOffer`; `none` is an error.
  unfoldable pub read_offer : Value → Option Text → Option Offer
  read_offer answer slug =
      let claimed = member answer (codes "slug") in
      let which = or_else slug (text_or_empty claimed) in
      do
        campaign ←
            read_campaign (member answer (codes "campaign"))
              (is_text claimed && valid_slug (text_or_empty claimed))
        if not (valid_slug which)
            then none
            else some (record {
              slug = which;
              name = read_name (member answer (codes "name")) which;
              campaign = campaign;
              logo = read_logo (member (member answer (codes "logo")) (codes "url"));
              templates = offered_templates (member answer (codes "templates"));
            })
