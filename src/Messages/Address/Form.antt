-- ===== src/Messages/Address/Form.antt =====
-- noyau/messages.ts: the form of an email address, against `RX_EMAIL`.
use paraphe.Common.{
  ℕ, ◌≤◌, Bool, true, false, not, ◌&&◌, ◌||◌, Option, none, some, [], ◌∷◌, ◌++◌, Text, length, leb,
  all, ◌==◌, ◌≡◌, refl, ap, sym, ◌∙◌, subst, Bool-cases, Option-cases, inl, inr, arith, starts_with,
}
use mathlib.Core.Option.{some-injective, none-ne-some}
use paraphe.Texte.Controls.{is_nil, is_space}
use paraphe.Messages.Words.{cut_at}
use paraphe.Messages.Address.{is_address_char, is_ascii_letter, has_domain_end, is_email}

-- A character that may stand around the `@`.
abbrev pub is_plain : ℕ → Bool
is_plain c = not (is_space c) && not (c == b'@') && not (c == b',') && not (c == b';')

abbrev pub is_letter_of_ascii : ℕ → Bool
is_letter_of_ascii c = (leb b'a' c && leb c b'z') || (leb b'A' c && leb c b'Z')

-- `local@host.ending`, where the ending is two letters or more.
abbrev pub IsAddress : Text → Type 0
IsAddress t =
    (local : Text) × (host : Text) × (ending : Text) × (t
      ≡ local ++ (b'@' ∷ (host ++ (b'.' ∷ ending))))
    × (is_nil local ≡ false)
    × (is_nil host ≡ false)
    × (all is_plain local ≡ true)
    × (all is_plain host ≡ true)
    × (2 ≤ length ending)
    × (all is_letter_of_ascii ending ≡ true)

all-ext : (p q : ℕ → Bool) (s : Text) → ((c : ℕ) → p c ≡ q c) → all p s ≡ all q s
all-ext p q [] h = refl
all-ext p q (c ∷ s) h = rw (h c, all-ext p q s h) refl

address_char-plain : (c : ℕ) → is_address_char c ≡ is_plain c
unfolding is_address_char
address_char-plain c = ground arith

plain_text : (s : Text) → all is_address_char s ≡ all is_plain s
plain_text s = all-ext is_address_char is_plain s address_char-plain

letters_text : (s : Text) → all is_ascii_letter s ≡ all is_letter_of_ascii s
letters_text s = all-ext is_ascii_letter is_letter_of_ascii s (λ c. ground arith)

all-append_iff : (p : ℕ → Bool) (s t : Text) → all p (s ++ t) ≡ (all p s && all p t)
all-append_iff p [] t = refl
all-append_iff p (c ∷ s) t = rw (all-append_iff p s t) (ground arith)

-- How a domain ends, with what may have been read of it.
EndsWell : Bool → Text → Type 0
EndsWell read s =
    (host : Text) × (ending : Text) × (s ≡ host ++ b'.' ∷ ending)
    × ((read || not (is_nil host)) ≡ true)
    × (2 ≤ length ending)
    × (all is_ascii_letter ending ≡ true)

has_domain_end-EndsWell : (read : Bool) (s : Text) → has_domain_end read s ≡ true → EndsWell read s
unfolding has_domain_end EndsWell
has_domain_end-EndsWell read [] h = cc
has_domain_end-EndsWell read (c ∷ s) h =
    elim (Bool-cases (c == b'.' && read && leb 2 (length s) && all is_ascii_letter s)) [
      | inl e ↦ ([], s, ap (λ d. d ∷ s) (ground arith), ground arith, ground arith, ground arith)
      | inr e ↦
          let (host, ending, same, _, long, letters) =
            has_domain_end-EndsWell true s (ground arith) in
          (c ∷ host, ending, ap (λ t. c ∷ t) same, ground arith, long, letters)
    ]

has_domain_end-host :
    (read : Bool) (host ending : Text)
    → (read || not (is_nil host)) ≡ true
    → 2 ≤ length ending
    → all is_ascii_letter ending ≡ true
    → has_domain_end read (host ++ b'.' ∷ ending) ≡ true
unfolding has_domain_end
has_domain_end-host read [] ending r long letters = ground arith
has_domain_end-host read (c ∷ host) ending r long letters =
    ground (arith, has_domain_end-host true host ending refl long letters)

-- A round of `cut_at`.
abbrev cut_by : Bool → Option (Text × Text) → ℕ → Text → Option (Text × Text)
cut_by b o c t = elim b [
  | true ↦ some ([], t)
  | false ↦ elim o [ none ↦ none | some (x, y) ↦ some (c ∷ x, y) ]
]

cut_at-round :
    (c : ℕ) (t : Text)
    → cut_at (c ∷ t) (b'@' ∷ []) ≡ cut_by (c == b'@' && true) (cut_at t (b'@' ∷ [])) c t
unfolding cut_at starts_with
cut_at-round c t = refl

joined_by :
    (b : Bool) (o : Option (Text × Text)) (c : ℕ) (t before after : Text)
    → (b ≡ true → c ≡ b'@')
    → ((x y : Text) → o ≡ some (x, y) → t ≡ x ++ b'@' ∷ y)
    → cut_by b o c t ≡ some (before, after)
    → c ∷ t ≡ before ++ b'@' ∷ after
joined_by true o c t before after f g h =
    subst (λ (p : Text × Text). c ∷ t ≡ p.0 ++ b'@' ∷ p.1)
      (some-injective ([], t) (before, after) h) (ap (λ d. d ∷ t) (f refl))
joined_by false none c t before after f g h = absurd (none-ne-some (before, after) h)
joined_by false (some (x, y)) c t before after f g h =
    subst (λ (p : Text × Text). c ∷ t ≡ p.0 ++ b'@' ∷ p.1)
      (some-injective (c ∷ x, y) (before, after) h) (ap (λ s. c ∷ s) (g x y refl))

cut_at-joined :
    (t before after : Text)
    → cut_at t (b'@' ∷ []) ≡ some (before, after)
    → t ≡ before ++ b'@' ∷ after
unfolding cut_at starts_with
cut_at-joined [] before after h = cc
cut_at-joined (c ∷ t) before after h =
    joined_by (c == b'@' && true) (cut_at t (b'@' ∷ [])) c t before after (λ e. ground arith)
      (cut_at-joined t) (sym (cut_at-round c t) ∙ h)

cut_at-plain :
    (before after : Text)
    → all is_plain before ≡ true
    → cut_at (before ++ b'@' ∷ after) (b'@' ∷ []) ≡ some (before, after)
unfolding cut_at starts_with
cut_at-plain [] after h = refl
cut_at-plain (c ∷ before) after h =
    let other : c == b'@' ≡ false = ground arith in
    cut_at-round c (before ++ b'@' ∷ after)
    ∙ rw (other, cut_at-plain before after (ground arith)) refl

-- The test on the two sides of the first `@`.
abbrev sides_test : Option (Text × Text) → Bool
sides_test none = false
sides_test (some (local, domain)) =
    not (is_nil local)
    && all is_address_char local
    && all is_address_char domain
    && has_domain_end false domain

is_email-sides : (t : Text) → is_email t ≡ sides_test (cut_at t (b'@' ∷ []))
unfolding is_email
is_email-sides t = elim (Option-cases (cut_at t (b'@' ∷ []))) [
  | inl e ↦ rw (is_email, e) refl
  | inr (p, e) ↦ rw (is_email, e) refl
]

sides-IsAddress :
    (o : Option (Text × Text)) (t : Text)
    → ((x y : Text) → o ≡ some (x, y) → t ≡ x ++ b'@' ∷ y)
    → sides_test o ≡ true
    → IsAddress t
unfolding EndsWell
sides-IsAddress none t f h = cc
sides-IsAddress (some (local, domain)) t f h =
    let (host, ending, same, r, long, letters) =
      has_domain_end-EndsWell false domain (ground arith) in
    let local_plain : all is_plain local ≡ true = sym (plain_text local) ∙ ground arith in
    let domain_plain : all is_plain domain ≡ true = sym (plain_text domain) ∙ ground arith in
    let parts : (all is_plain host && all is_plain (b'.' ∷ ending)) ≡ true =
      sym (all-append_iff is_plain host (b'.' ∷ ending))
      ∙ (ap (all is_plain) (sym same) ∙ domain_plain) in
    (
      local,
      host,
      ending,
      f local domain refl ∙ ap (λ d. local ++ b'@' ∷ d) same,
      ground arith,
      ground arith,
      local_plain,
      ground arith,
      long,
      sym (letters_text ending) ∙ letters,
    )

pub is_email-IsAddress : (t : Text) → is_email t ≡ true → IsAddress t
is_email-IsAddress t h =
    sides-IsAddress (cut_at t (b'@' ∷ [])) t (cut_at-joined t) (sym (is_email-sides t) ∙ h)

letter_plain : (c : ℕ) → is_letter_of_ascii c ≡ true → is_plain c ≡ true
unfolding is_space
letter_plain c h = ground arith

both_true : {a b : Bool} → a ≡ true → b ≡ true → (a && b) ≡ true
both_true h k = ground arith

letters_plain : (s : Text) → all is_letter_of_ascii s ≡ true → all is_plain s ≡ true
letters_plain [] h = refl
letters_plain (c ∷ s) h = both_true (letter_plain c (ground arith)) (letters_plain s (ground arith))

dot_plain : is_plain b'.' ≡ true
unfolding is_space
dot_plain = refl

pub IsAddress-is_email : (t : Text) → IsAddress t → is_email t ≡ true
IsAddress-is_email t (local, host, ending, same, l, r, pl, ph, long, letters) =
    let domain : Text = host ++ (b'.' ∷ ending) in
    let cut : cut_at t (b'@' ∷ []) ≡ some (local, domain) =
      ap (λ s. cut_at s (b'@' ∷ [])) same ∙ cut_at-plain local domain pl in
    let ended : has_domain_end false domain ≡ true =
      has_domain_end-host false host ending (ground arith) long (letters_text ending ∙ letters) in
    let local_plain : all is_address_char local ≡ true = plain_text local ∙ pl in
    let domain_plain : all is_address_char domain ≡ true =
      plain_text domain
      ∙ (all-append_iff is_plain host (b'.' ∷ ending)
          ∙ both_true ph (both_true dot_plain (letters_plain ending letters))) in
    is_email-sides t ∙ (ap sides_test cut ∙ ground arith)
