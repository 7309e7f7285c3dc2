-- ===== src/Prefill/Offers.antt =====
-- web/src/prefill.ts: what an offer that is accepted looks like.
use paraphe.Common.{
  ◌≤◌, Bool, true, false, not, ◌&&◌, ◌||◌, Option, none, some, List, [], ◌∷◌, Text, codes, text_eq,
  text_eq_self, any, all, length, ltb, ◌==◌, take, if◌then◌else◌, or_else, starts_with, All,
  bind-some, passed-some, passed-false, Bool-cases, ◌≡◌, ◌⊎◌, refl, ap, subst, inl, inr, arith,
}
use mathlib.Core.Option.{some-injective}
use paraphe.Csv.{Row}
use paraphe.Texte.Unicode.{Unicode}
use paraphe.Texte.Controls.{trim, is_nil}
use paraphe.Messages.Unfilled.{campaign_keys, template_files, max_template_runes, unfilled_keys}
use paraphe.Prefill.{
  Value, text, object, undefined, null, other, member, is_text, text_or_empty, is_object,
  offer_file, offer_files, offered_templates, valid_slug, read_keys, Offer, read_campaign,
  read_logo, read_offer,
}

-- A text under one of these names, not blank and not too long.
abbrev pub IsTemplate : List Text → Text × Text → Type 0
IsTemplate files (file, t) =
    (any (text_eq file) files ≡ true) × (is_nil (trim t) ≡ false) × length t ≤ max_template_runes

offer_file-All :
    (P : Text × Text → Type 0) (file : Text) (v : Value) (rest : Row)
    → ((t : Text) → is_nil (trim t) ≡ false → length t ≤ max_template_runes → P (file, t))
    → All P rest
    → All P (offer_file file v rest)
unfolding offer_file
offer_file-All P file (text t) rest p h = elim (Bool-cases (is_nil (trim t))) [
  | inl e ↦ rw e h
  | inr e ↦ rw e (elim (Bool-cases (ltb max_template_runes (length t))) [
    | inl f ↦ rw f h
    | inr f ↦ rw f (p t e (ground arith), h)
  ])
]
offer_file-All P file (object o) rest p h = h
offer_file-All P file undefined rest p h = h
offer_file-All P file null rest p h = h
offer_file-All P file other rest p h = h

All-weaken :
    (file : Text) (files : List Text) (row : Row)
    → All (IsTemplate files) row
    → All (IsTemplate (file ∷ files)) row
All-weaken file files [] h = tt
All-weaken file files ((f, t) ∷ row) ((m, b, l), h) =
    ((ground arith, b, l), All-weaken file files row h)

offer_files-All :
    (files : List Text) (value : Value) → All (IsTemplate files) (offer_files files value)
unfolding offer_files
offer_files-All [] value = tt
offer_files-All (file ∷ files) value =
    offer_file-All (IsTemplate (file ∷ files)) file (member value file) (offer_files files value)
      (λ t b l. (ground (arith, text_eq_self file), b, l))
      (All-weaken file files (offer_files files value) (offer_files-All files value))

module _ (unicode : Unicode) (print : Value → Text) where
  -- No block, or nine fields none of which is left to fill.
  abbrev pub IsFilled : Option Row → Type 0
  IsFilled none = Unit {0}
  IsFilled (some cfg) = unfilled_keys unicode cfg ≡ []

  -- No logo, or an address of the web.
  abbrev pub IsLogo : Text → Type 0
  IsLogo t =
      (t ≡ [])
      ⊎ ((starts_with (unicode.to_lower (take 8 t)) (codes "http://")
            || starts_with (unicode.to_lower (take 8 t)) (codes "https://"))
          ≡ true)

  read_logo-IsLogo : (v : Value) → IsLogo (read_logo unicode print v)
  unfolding read_logo
  read_logo-IsLogo v =
      let start = unicode.to_lower (take 8 (text_or_empty v)) in
      elim (Bool-cases
        (starts_with start (codes "http://") || starts_with start (codes "https://"))) [
          | inl e ↦ rw e (inr e)
          | inr e ↦ rw e (inl refl)
        ]

  nil_of_length : (keys : List Text) → length keys == 0 ≡ true → keys ≡ []
  nil_of_length [] h = refl
  nil_of_length (k ∷ keys) h = absurd (ground arith)

  filled :
      (v : Value) (campaign : Option Row)
      → (let cfg = read_keys campaign_keys v in
          if not (
            is_object v
            && all (λ k. is_text (member v k)) campaign_keys
            && length (unfilled_keys unicode cfg) == 0)
          then none
          else some (some cfg))
        ≡ some campaign
      → IsFilled campaign
  filled v campaign h =
      let cfg : Row = read_keys campaign_keys v in
      let refused =
        is_object v
        && all (λ k. is_text (member v k)) campaign_keys
        && length (unfilled_keys unicode cfg) == 0 in
      let ok = passed-false (not refused) (some (some cfg)) campaign h in
      subst IsFilled
        (some-injective (some cfg) campaign
          (passed-some (not refused) (some (some cfg)) campaign h))
        (nil_of_length (unfilled_keys unicode cfg)
          (last_of (is_object v) (all (λ k. is_text (member v k)) campaign_keys) _ ok))
    where
      last_of : (a b c : Bool) → not (a && b && c) ≡ false → c ≡ true
      last_of a b c h = ground arith

  read_campaign-IsFilled :
      (v : Value) (named : Bool) (campaign : Option Row)
      → read_campaign unicode print v named ≡ some campaign
      → IsFilled campaign
  unfolding read_campaign
  read_campaign-IsFilled undefined named campaign h =
      subst IsFilled (some-injective none campaign (passed-some (not named) (some none) campaign h))
        tt
  read_campaign-IsFilled (text t) named campaign h = filled (text t) campaign h
  read_campaign-IsFilled (object o) named campaign h = filled (object o) campaign h
  read_campaign-IsFilled null named campaign h = filled null campaign h
  read_campaign-IsFilled other named campaign h = filled other campaign h

  abbrev pub IsSound : Option Text → Offer → Type 0
  IsSound asked offer =
      (valid_slug offer.slug ≡ true)
      × ((s : Text) → asked ≡ some s → offer.slug ≡ s)
      × IsFilled offer.campaign
      × IsLogo offer.logo
      × All (IsTemplate template_files) offer.templates

  -- Whatever a server answers, an offer that `readOffer` returns is sound: its slug is a label of a
  -- host name, and the one asked for if one was; it has no block of fields or one with no field left
  -- to fill; its logo is empty or starts with `http://` or `https://`; its templates are some of the
  -- six, none blank and none longer than 5000 characters.
  pub read_offer-IsSound :
      (answer : Value) (slug : Option Text) (offer : Offer)
      → read_offer unicode print answer slug ≡ some offer
      → IsSound slug offer
  unfolding read_offer offered_templates
  read_offer-IsSound answer slug offer h =
      let claimed = member answer (codes "slug") in
      let which = or_else slug (text_or_empty claimed) in
      let (campaign, e, k) =
        bind-some
          (read_campaign unicode print (member answer (codes "campaign"))
            (is_text claimed && valid_slug (text_or_empty claimed)))
          _ offer h in
      let ok = passed-false (not (valid_slug which)) _ offer k in
      subst (IsSound slug) (some-injective _ offer (passed-some (not (valid_slug which)) _ offer k))
        (
          ground arith,
          λ s q. ap (λ o. or_else o (text_or_empty claimed)) q,
          read_campaign-IsFilled (member answer (codes "campaign")) _ campaign e,
          read_logo-IsLogo (member (member answer (codes "logo")) (codes "url")),
          offer_files-All template_files (member answer (codes "templates")),
        )
