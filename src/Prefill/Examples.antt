-- ===== src/Prefill/Examples.antt =====
-- Tests of the offers of campaigns: an answer that carries a name, a block, a logo that is no
-- address and two templates, one of them blank.
use paraphe.Common.{some, [], ◌∷◌, Text, codes, text_eq, starts_with, if◌then◌else◌, ◌≡◌, refl, inr}
use paraphe.Csv.{field}
use paraphe.Texte.Ascii.{ascii}
use paraphe.Texte.Controls.{trim, trim_start, trim_end, is_space}
use paraphe.Messages.Unfilled.{
  campaign_keys, is_invisible, is_blank, fold_blanks, has_pair, shown_value, is_unfilled,
  unfilled_keys,
}
use paraphe.Prefill.{
  Value, text, object, undefined, member, is_object, is_text, text_or_empty, offer_file,
  offer_files, offered_templates, is_alnum, is_slug_char, ends_alnum, valid_slug, read_keys, Page,
  instance_domain, public_campaign_url, campaign_url, Offer, read_campaign, read_logo, read_name,
  read_offer,
}
use paraphe.Prefill.Offers.{IsSound, read_offer-IsSound}
use paraphe.Prefill.Hosts.{host_of, campaign_url-host}

abbrev print : Value → Text
print v = []

-- The block of a campaign that has nine fields.
abbrev block : Value
block = object (λ k. text (codes "Rennes"))

abbrev marks : Value
marks = object (λ k. if text_eq k (codes "url") then text (codes "javascript:") else undefined)

abbrev texts : Value
texts = object (λ k.
    if text_eq k (codes "email.txt")
    then text (codes "Bonjour")
    else if text_eq k (codes "letter.txt")
    then text (codes "  ")
    else undefined)

abbrev answer : Value
answer = object (λ k.
    if text_eq k (codes "slug")
    then text (codes "autre")
    else if text_eq k (codes "campaign")
    then block
    else if text_eq k (codes "logo")
    then marks
    else if text_eq k (codes "templates")
    then texts
    else undefined)

abbrev offer : Offer
offer = record {
  slug = codes "ouest-29";
  name = codes "ouest-29";
  campaign = some (read_keys campaign_keys block);
  logo = [];
  templates = (codes "email.txt", codes "Bonjour") ∷ [];
}

read_answer : read_offer ascii print answer (some (codes "ouest-29")) ≡ some offer
unfolding read_offer read_campaign read_logo read_name read_keys member offered_templates
    offer_files offer_file valid_slug ends_alnum is_slug_char is_alnum unfilled_keys is_unfilled
    shown_value fold_blanks has_pair is_blank is_invisible text_eq is_object is_text trim trim_end
    trim_start field text_or_empty is_space starts_with
read_answer = refl

read_offer-IsSound_example : IsSound ascii print (some (codes "ouest-29")) offer
read_offer-IsSound_example =
    read_offer-IsSound ascii print answer (some (codes "ouest-29")) offer read_answer

abbrev this_page : Page
this_page = record {
  protocol = codes "http:";
  port = codes "8047";
  marked = codes "paraphe.fr";
  baked = [];
}

abbrev address : Text
address = codes "http://ouest-29.paraphe.fr:8047/api/campaign/public"

this_page_address : campaign_url this_page (codes "ouest-29") ≡ some address
unfolding campaign_url public_campaign_url valid_slug ends_alnum is_slug_char is_alnum
this_page_address = refl

campaign_url-host_example : host_of address ≡ codes "ouest-29.paraphe.fr"
unfolding instance_domain is_slug_char is_alnum
campaign_url-host_example =
    campaign_url-host this_page (codes "ouest-29") address this_page_address (inr refl) refl refl
