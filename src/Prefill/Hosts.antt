-- ===== src/Prefill/Hosts.antt =====
-- web/src/prefill.ts: the host that is asked for a campaign.
use paraphe.Common.{
  ℕ, Bool, true, false, not, ◌&&◌, ◌||◌, some, [], ◌∷◌, ◌++◌, Text, codes, all, ◌==◌, if◌then◌else◌,
  has_char, passed-some, passed-false, Bool-cases, append_assoc, ◌≡◌, ◌⊎◌, refl, ap, subst, ◌∙◌,
  inl, inr, arith,
}
use mathlib.Core.Option.{some-injective}
use paraphe.Texte.Controls.{is_nil}
use paraphe.Prefill.{
  is_alnum, is_slug_char, ends_alnum, valid_slug, Page, instance_domain, public_campaign_url,
  campaign_url,
}

-- How an address names a host: what stands behind `//`, up to the path, without what stands before
-- `@` and without the port.
unfoldable pub after_slashes : Text → Text
after_slashes [] = []
after_slashes (c ∷ []) = []
after_slashes (c ∷ d ∷ s) = if c == b'/' && d == b'/' then s else after_slashes (d ∷ s)

unfoldable pub authority : Text → Text
authority [] = []
authority (c ∷ s) =
    if c == b'/' || c == b'?' || c == b'#' || c == b'\\' then [] else c ∷ authority s

unfoldable pub after_at : Text → Text
after_at [] = []
after_at (c ∷ s) = if c == b'@' || has_char b'@' s then after_at s else c ∷ s

unfoldable pub before_port : Text → Text
before_port [] = []
before_port (c ∷ s) = if c == b':' then [] else c ∷ before_port s

unfoldable pub host_of : Text → Text
host_of url = before_port (after_at (authority (after_slashes url)))

-- The characters of the name of a host.
abbrev pub is_host_char : ℕ → Bool
is_host_char c = is_slug_char c || c == b'.'

host_char-plain :
    (c : ℕ)
    → is_host_char c ≡ true
    → (c == b'/' ≡ false)
      × (c == b'?' ≡ false)
      × (c == b'#' ≡ false)
      × (c == b'\\' ≡ false)
      × (c == b'@' ≡ false)
      × (c == b':' ≡ false)
unfolding is_slug_char is_alnum
host_char-plain c h = ground arith

alnum-host : (c : ℕ) → is_alnum c ≡ true → is_host_char c ≡ true
unfolding is_slug_char
alnum-host c h = ground arith

ends_alnum-host : (s : Text) → ends_alnum s ≡ true → all is_host_char s ≡ true
unfolding ends_alnum
ends_alnum-host [] h = refl
ends_alnum-host (c ∷ []) h = ground (arith, alnum-host c)
ends_alnum-host (c ∷ d ∷ s) h =
    let rest = ends_alnum-host (d ∷ s) (last_of (is_slug_char c) _ h) in
    both_of (is_slug_char c) _ _ h rest
  where
    last_of : (a b : Bool) → (a && b) ≡ true → b ≡ true
    last_of a b h = ground arith

    both_of : (a b e : Bool) → (a && b) ≡ true → e ≡ true → ((a || c == b'.') && e) ≡ true
    both_of a b e h k = ground arith

valid_slug-host : (s : Text) → valid_slug s ≡ true → all is_host_char s ≡ true
unfolding valid_slug
valid_slug-host [] h = refl
valid_slug-host (c ∷ s) h = ground (arith, alnum-host c, ends_alnum-host s)

all-append-host :
    (s t : Text)
    → all is_host_char s ≡ true
    → all is_host_char t ≡ true
    → all is_host_char (s ++ t) ≡ true
all-append-host [] t h k = k
all-append-host (c ∷ s) t h k = ground (arith, all-append-host s t)

after_at-plain : (s : Text) → has_char b'@' s ≡ false → after_at s ≡ s
unfolding after_at
after_at-plain [] h = refl
after_at-plain (c ∷ s) h = rw h refl

-- What stands between the name of the host and the path.
abbrev pub tail_of : Text → Text
tail_of port = if is_nil port then [] else b':' ∷ port

module _ (port path : Text) (digits : all is_host_char port ≡ true) where
  authority-digits : (s : Text) → all is_host_char s ≡ true → authority (s ++ b'/' ∷ path) ≡ s
  unfolding authority
  authority-digits [] h = refl
  authority-digits (c ∷ s) h =
      let (a, b, d, e, _, _) = host_char-plain c (ground arith) in
      rw (a, b, d, e) (ap (λ t. c ∷ t) (authority-digits s (ground arith)))

  authority-tail : authority (tail_of port ++ b'/' ∷ path) ≡ tail_of port
  unfolding authority
  authority-tail = of_port port digits
    where
      of_port :
          (p : Text)
          → all is_host_char p ≡ true
          → (let t : Text = if is_nil p then [] else b':' ∷ p in authority (t ++ b'/' ∷ path) ≡ t)
      of_port [] h = refl
      of_port (c ∷ p) h = ap (λ t. b':' ∷ t) (authority-digits (c ∷ p) h)

  authority-host :
      (s : Text)
      → all is_host_char s ≡ true
      → authority (s ++ (tail_of port ++ b'/' ∷ path)) ≡ s ++ tail_of port
  unfolding authority
  authority-host [] h = authority-tail
  authority-host (c ∷ s) h =
      let (a, b, d, e, _, _) = host_char-plain c (ground arith) in
      rw (a, b, d, e) (ap (λ t. c ∷ t) (authority-host s (ground arith)))

  has_char-port : (s : Text) → all is_host_char s ≡ true → has_char b'@' s ≡ false
  has_char-port [] h = refl
  has_char-port (c ∷ s) h =
      let (_, _, _, _, e, _) = host_char-plain c (ground arith) in ground (arith, has_char-port s)

  has_char-host : (s : Text) → all is_host_char s ≡ true → has_char b'@' (s ++ tail_of port) ≡ false
  has_char-host [] h = of_port port digits
    where
      of_port :
          (p : Text)
          → all is_host_char p ≡ true
          → has_char b'@' (if is_nil p then [] else b':' ∷ p) ≡ false
      of_port [] h = refl
      of_port (c ∷ p) h = has_char-port (c ∷ p) h
  has_char-host (c ∷ s) h =
      let (_, _, _, _, e, _) = host_char-plain c (ground arith) in ground (arith, has_char-host s)

  before_port-host : (s : Text) → all is_host_char s ≡ true → before_port (s ++ tail_of port) ≡ s
  unfolding before_port
  before_port-host [] h = of_port port
    where
      of_port : (p : Text) → before_port (if is_nil p then [] else b':' ∷ p) ≡ []
      of_port [] = refl
      of_port (c ∷ p) = refl
  before_port-host (c ∷ s) h =
      let (_, _, _, _, _, e) = host_char-plain c (ground arith) in
      rw e (ap (λ t. c ∷ t) (before_port-host s (ground arith)))

  -- The host behind the slashes.
  host-plain :
      (s : Text)
      → all is_host_char s ≡ true
      → before_port (after_at (authority (s ++ (tail_of port ++ b'/' ∷ path)))) ≡ s
  host-plain s h =
      ap (λ t. before_port (after_at t)) (authority-host s h)
      ∙ ap before_port (after_at-plain (s ++ tail_of port) (has_char-host s h))
      ∙ before_port-host s h

  host_of-address :
      (scheme s : Text)
      → (scheme ≡ codes "https:") ⊎ (scheme ≡ codes "http:")
      → all is_host_char s ≡ true
      → host_of (scheme ++ (codes "//" ++ (s ++ (tail_of port ++ b'/' ∷ path)))) ≡ s
  unfolding host_of after_slashes
  host_of-address scheme s (inl e) h = rw e (host-plain s h)
  host_of-address scheme s (inr e) h = rw e (host-plain s h)

-- The name of a campaign before a domain is a name of a host.
name-host :
    (slug domain : Text)
    → valid_slug slug ≡ true
    → all is_host_char domain ≡ true
    → all is_host_char (slug ++ b'.' ∷ domain) ≡ true
unfolding is_slug_char is_alnum
name-host slug domain h k = all-append-host slug (b'.' ∷ domain) (valid_slug-host slug h) k

host_of-name :
    (port path : Text)
    → all is_host_char port ≡ true
    → (scheme slug domain : Text) → (scheme ≡ codes "https:") ⊎ (scheme ≡ codes "http:")
    → valid_slug slug ≡ true
    → all is_host_char domain ≡ true
    → host_of (scheme ++ (codes "//" ++ (slug ++ (b'.' ∷ domain ++ (tail_of port ++ b'/' ∷ path)))))
      ≡ slug ++ b'.' ∷ domain
host_of-name port path d scheme slug domain p h k =
    subst (λ t. host_of (scheme ++ (codes "//" ++ t)) ≡ slug ++ b'.' ∷ domain)
      (append_assoc slug (b'.' ∷ domain) (tail_of port ++ b'/' ∷ path))
      (host_of-address port path d scheme (slug ++ b'.' ∷ domain) p (name-host slug domain h k))

-- The name of the campaign and the domain are all that the address says of the host.
public_campaign_url-host :
    (page : Page) (slug : Text)
    → valid_slug slug ≡ true
    → (page.protocol ≡ codes "https:") ⊎ (page.protocol ≡ codes "http:")
    → all is_host_char page.port ≡ true
    → all is_host_char (instance_domain page) ≡ true
    → host_of (public_campaign_url page slug) ≡ slug ++ b'.' ∷ instance_domain page
unfolding public_campaign_url instance_domain
public_campaign_url-host page slug h p d = elim (Bool-cases (is_nil page.marked)) [
  | inl e ↦ rw e (λ k.
      host_of-name [] (codes "api/campaign/public") refl (codes "https:") slug page.baked (inl refl)
        h k)
  | inr e ↦ rw e (λ k.
      host_of-name page.port (codes "api/campaign/public") d page.protocol slug page.marked p h k)
]

-- Whatever slug is given to `fetchCampaign`, the host that it asks is `<slug>.<domain>`, where the
-- domain is that of the instance: it is what an address names, behind a user and before a port. The
-- page was loaded over `http:` or `https:`, and the domain and the port are made of letters, digits,
-- hyphens and dots.
pub campaign_url-host :
    (page : Page) (slug url : Text)
    → campaign_url page slug ≡ some url
    → (page.protocol ≡ codes "https:") ⊎ (page.protocol ≡ codes "http:")
    → all is_host_char page.port ≡ true
    → all is_host_char (instance_domain page) ≡ true
    → host_of url ≡ slug ++ b'.' ∷ instance_domain page
unfolding campaign_url
campaign_url-host page slug url h p d k =
    let ok = passed-false (not (valid_slug slug)) (some (public_campaign_url page slug)) url h in
    let e =
      some-injective _ url
        (passed-some (not (valid_slug slug)) (some (public_campaign_url page slug)) url h) in
    subst (λ u. host_of u ≡ slug ++ b'.' ∷ instance_domain page) e
      (public_campaign_url-host page slug (ground arith) p d k)
