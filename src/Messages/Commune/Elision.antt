-- ===== src/Messages/Commune/Elision.antt =====
-- noyau/messages.ts: the recursion of `elidedCommune`.
use paraphe.Common.{
  ℕ, zero, suc, ◌+◌, ◌≤◌, ◌&&◌, none, some, [], ◌∷◌, Text, ◌==◌, ◌>>=◌, ◌≡◌, refl, sym, ◌∙◌, subst,
  if◌then◌else◌, length, length-append, arith, Bool-cases, Option-cases, inl, inr, ◌⊎◌, bind-some,
}
use mathlib.Core.Option.{some-injective, none-ne-some}
use paraphe.Texte.Controls.{is_space, trim_start, trim_end, is_nil, trim}
use paraphe.Texte.Unicode.{Unicode}
use paraphe.Messages.Commune.{
  is_glued, is_article, is_terminator, skip_comma, check_article, take_back, before_bracket,
  bracketed, inverted, reordered, elided, elided_within, elided_commune,
}

length-trim_start : (s : Text) → length (trim_start s) ≤ length s
unfolding trim_start
length-trim_start [] = omega arith
length-trim_start (c ∷ s) = elim (Bool-cases (is_space c)) [
  | inl e ↦ rw e (omega (arith, length-trim_start s))
  | inr e ↦ rw e (omega arith)
]

length-trim_end : (s : Text) → length (trim_end s) ≤ length s
unfolding trim_end
length-trim_end [] = omega arith
length-trim_end (c ∷ s) = elim (Bool-cases (is_space c && is_nil (trim_end s))) [
  | inl e ↦ rw e (omega arith)
  | inr e ↦ rw e (omega (arith, length-trim_end s))
]

length-trim : (s : Text) → length (trim s) ≤ length s
unfolding trim
length-trim s = omega (arith, length-trim_end (trim_start s), length-trim_start s)

length-before_bracket : (s body : Text) → before_bracket s ≡ some body → length body + 1 ≤ length s
unfolding before_bracket
length-before_bracket [] body h = absurd (none-ne-some body h)
length-before_bracket (c ∷ []) body h = elim (Bool-cases (c == b')')) [
  | inl e ↦
      let q : [] ≡ body =
        some-injective [] body (subst (λ b. (if b then some [] else none) ≡ some body) e h) in
      subst (λ t. length t + 1 ≤ 1) q (omega arith)
  | inr e ↦ absurd (none-ne-some body (subst (λ b. (if b then some [] else none) ≡ some body) e h))
]
length-before_bracket (c ∷ d ∷ s) body h =
    let (rest, e, q) = bind-some (before_bracket (d ∷ s)) (λ t. some (c ∷ t)) body h in
    subst (λ t. length t + 1 ≤ suc (suc (length s))) (some-injective (c ∷ rest) body q)
      (omega (arith, length-before_bracket (d ∷ s) rest e))

check_article_same : (t article : Text) → check_article t ≡ some article → t ≡ article
check_article_same t article h = elim (Bool-cases (is_article t)) [
  | inl e ↦ some-injective t article (subst (λ b. (if b then some t else none) ≡ some article) e h)
  | inr e ↦
      absurd (none-ne-some article (subst (λ b. (if b then some t else none) ≡ some article) e h))
]

length-bracketed : (s article : Text) → bracketed s ≡ some article → length article + 2 ≤ length s
unfolding bracketed
length-bracketed [] article h = absurd (none-ne-some article h)
length-bracketed (c ∷ s) article h = elim (Bool-cases (c == b'(')) [
  | inl e ↦
      let h' : before_bracket s >>= check_article ≡ some article =
        subst (λ b. (if b then before_bracket s >>= check_article else none) ≡ some article) e h in
      let (t, p, q) = bind-some (before_bracket s) check_article article h' in
      subst (λ a. length a + 2 ≤ suc (length s)) (check_article_same t article q)
        (omega (arith, length-before_bracket s t p))
  | inr e ↦ absurd (
      none-ne-some article
        (subst (λ b. (if b then before_bracket s >>= check_article else none) ≡ some article) e h))
]

length-skip_comma : (s : Text) → length (skip_comma s) ≤ length s
length-skip_comma [] = omega arith
length-skip_comma (c ∷ s) = ground arith

length-take_back :
    (c : ℕ) (r r' : Text × Text)
    → take_back c r ≡ some r'
    → length r'.0 + length r'.1 ≡ suc (length r.0 + length r.1)
length-take_back c r r' h = elim (Bool-cases (is_terminator c)) [
  | inl e ↦
      absurd
        (none-ne-some r' (subst (λ b. (if b then none else some (c ∷ r.0, r.1)) ≡ some r') e h))
  | inr e ↦
      subst (λ t. length t.0 + length t.1 ≡ suc (length r.0 + length r.1))
        (some-injective (c ∷ r.0, r.1) r'
          (subst (λ b. (if b then none else some (c ∷ r.0, r.1)) ≡ some r') e h))
        (omega arith)
]

inverted-at_none :
    (c : ℕ) (s : Text)
    → bracketed (trim_start (skip_comma (c ∷ s))) ≡ none
    → inverted (c ∷ s) ≡ inverted s >>= take_back c
unfolding inverted
inverted-at_none c s e = rw (e, inverted) refl

inverted-at_some :
    (c : ℕ) (s article : Text)
    → bracketed (trim_start (skip_comma (c ∷ s))) ≡ some article
    → inverted (c ∷ s) ≡ some ([], article)
unfolding inverted
inverted-at_some c s article e = rw (e, inverted) refl

length-inverted :
    (s : Text) (r : Text × Text) → inverted s ≡ some r → length r.0 + length r.1 + 2 ≤ length s
length-inverted [] r h = unfold inverted in absurd (none-ne-some r h)
length-inverted (c ∷ s) r h = elim (Option-cases (bracketed (trim_start (skip_comma (c ∷ s))))) [
  | inl e ↦
      let (r', p, q) = bind-some (inverted s) (take_back c) r (sym (inverted-at_none c s e) ∙ h) in
      omega (arith, length-inverted s r' p, length-take_back c r' r q)
  | inr (a, e) ↦
      subst (λ t. length t.0 + length t.1 + 2 ≤ suc (length s))
        (some-injective ([], a) r (sym (inverted-at_some c s a e) ∙ h))
        (omega (
          arith,
          length-bracketed (trim_start (skip_comma (c ∷ s))) a e,
          length-trim_start (skip_comma (c ∷ s)),
          length-skip_comma (c ∷ s),
        ))
]

length-reordered :
    (bare article : Text) → length (reordered bare article) ≤ length article + length bare + 1
unfolding reordered
length-reordered bare article = elim (Bool-cases (is_glued article)) [
  | inl e ↦ rw e (omega (arith, length-append article (trim bare), length-trim bare))
  | inr e ↦ rw e (omega (arith, length-append article (32 ∷ trim bare), length-trim bare))
]

module _ (unicode : Unicode) (n c : ℕ) (s : Text) where
  elided_within-at_none :
      inverted (c ∷ s) ≡ none → elided_within unicode (suc n) (c ∷ s) ≡ elided unicode (c ∷ s)
  unfolding elided_within
  elided_within-at_none e = rw (e, elided_within) refl

  elided_within-at_some :
      (bare article : Text)
      → inverted (c ∷ s) ≡ some (bare, article)
      → elided_within unicode (suc n) (c ∷ s) ≡ elided_within unicode n (reordered bare article)
  unfolding elided_within
  elided_within-at_some bare article e = rw (e, elided_within) refl

module _ (unicode : Unicode) where
  elided_within-enough :
      (n m : ℕ) (s : Text)
      → length s ≤ n
      → length s ≤ m
      → elided_within unicode n s ≡ elided_within unicode m s
  elided_within-enough n m [] h k = unfold elided_within in refl
  elided_within-enough zero m (c ∷ s) h k = absurd (omega arith)
  elided_within-enough (suc n) zero (c ∷ s) h k = absurd (omega arith)
  elided_within-enough (suc n) (suc m) (c ∷ s) h k = elim (Option-cases (inverted (c ∷ s))) [
    | inl e ↦ elided_within-at_none unicode n c s e ∙ sym (elided_within-at_none unicode m c s e)
    | inr (r, e) ↦
        let shorter : length (reordered r.0 r.1) ≤ length s =
          omega (arith, length-inverted (c ∷ s) r e, length-reordered r.0 r.1) in
        elided_within-at_some unicode n c s r.0 r.1 e
        ∙ (elided_within-enough n m (reordered r.0 r.1) (omega arith) (omega arith)
            ∙ sym (elided_within-at_some unicode m c s r.0 r.1 e))
  ]

  -- `elidedCommune` ends, and is what its source says: a name that an official list writes with the
  -- article at the end is elided as the one with the article in front, and any other name by the
  -- rules on the article in front.
  pub elided_commune_lem :
      (c : ℕ) (s : Text)
      → ((bare : Text) × (article : Text) × (inverted (c ∷ s) ≡ some (bare, article))
          × (elided_commune unicode (c ∷ s) ≡ elided_commune unicode (reordered bare article)))
        ⊎ ((inverted (c ∷ s) ≡ none) × (elided_commune unicode (c ∷ s) ≡ elided unicode (c ∷ s)))
  unfolding elided_commune
  elided_commune_lem c s = elim (Option-cases (inverted (c ∷ s))) [
    | inl e ↦ inr (e, elided_within-at_none unicode (length s) c s e)
    | inr (r, e) ↦
        let shorter : length (reordered r.0 r.1) ≤ length s =
          omega (arith, length-inverted (c ∷ s) r e, length-reordered r.0 r.1) in
        inl (
          r.0,
          r.1,
          e,
          elided_within-at_some unicode (length s) c s r.0 r.1 e
              ∙ elided_within-enough (length s) (length (reordered r.0 r.1)) (reordered r.0 r.1)
                  shorter (omega arith),
        )
  ]
