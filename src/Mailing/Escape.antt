-- ===== src/Mailing/Escape.antt =====
-- outils/messages-masse.ts: what `escapeHtml` makes of a text.
use paraphe.Common.{
  ℕ, zero, suc, Bool, false, ◌||◌, [], ◌∷◌, Text, codes, ◌==◌, if◌then◌else◌, starts_with, All, ◌≡◌,
  refl, ap, ◌∙◌, arith, inl, inr, ◌⊎◌,
}
use paraphe.Csv.{quote}
use paraphe.Mailing.{escape_html}

-- The characters by which a text could leave its element or an attribute.
abbrev pub is_markup : ℕ → Bool
is_markup c = c == b'<' || c == b'>' || c == quote || c == b'\''

-- What a browser shows for a text that has these five entities in it, with the number of characters
-- of an entity that are still to be passed over.
unfoldable pub shown : ℕ → Text → Text
shown n [] = []
shown (suc n) (c ∷ s) = shown n s
shown zero (c ∷ s) =
    if starts_with (c ∷ s) (codes "&amp;")
    then b'&' ∷ shown 4 s
    else if starts_with (c ∷ s) (codes "&lt;")
    then b'<' ∷ shown 3 s
    else if starts_with (c ∷ s) (codes "&gt;")
    then b'>' ∷ shown 3 s
    else if starts_with (c ∷ s) (codes "&quot;")
    then quote ∷ shown 5 s
    else if starts_with (c ∷ s) (codes "&#x27;")
    then b'\'' ∷ shown 5 s
    else c ∷ shown 0 s

-- A character is one of the five that are replaced, or none of them.
abbrev IsReplaced : ℕ → Type 0
IsReplaced c =
    (c ≡ b'&')
    ⊎ ((c ≡ b'<')
        ⊎ ((c ≡ b'>')
            ⊎ ((c ≡ quote)
                ⊎ ((c ≡ b'\'')
                    ⊎ ((c == b'&' ≡ false)
                        × (c == b'<' ≡ false)
                        × (c == b'>' ≡ false)
                        × (c == quote ≡ false)
                        × (c == b'\'' ≡ false))))))

IsReplaced-of : (c : ℕ) → IsReplaced c
IsReplaced-of c = ground arith

shown-plain : (c : ℕ) (s : Text) → c == b'&' ≡ false → shown 0 (c ∷ s) ≡ c ∷ shown 0 s
unfolding shown starts_with
shown-plain c s h = rw h refl

escaped :
    (s : Text) → (shown 0 (escape_html s) ≡ s) × All (λ c. is_markup c ≡ false) (escape_html s)
unfolding escape_html shown starts_with
escaped [] = (refl, tt)
escaped (c ∷ s) =
    let (same, safe) = escaped s in
    elim (IsReplaced-of c) [
      | inl e ↦ rw e (ap (λ t. b'&' ∷ t) same, (refl, (refl, (refl, (refl, (refl, safe))))))
      | inr (inl e) ↦ rw e (ap (λ t. b'<' ∷ t) same, (refl, (refl, (refl, (refl, safe)))))
      | inr (inr (inl e)) ↦ rw e (ap (λ t. b'>' ∷ t) same, (refl, (refl, (refl, (refl, safe)))))
      | inr (inr (inr (inl e))) ↦
          rw e (ap (λ t. quote ∷ t) same, (refl, (refl, (refl, (refl, (refl, (refl, safe)))))))
      | inr (inr (inr (inr (inl e)))) ↦
          rw e (ap (λ t. b'\'' ∷ t) same, (refl, (refl, (refl, (refl, (refl, (refl, safe)))))))
      | inr (inr (inr (inr (inr (a, l, g, q, k))))) ↦
          rw (a, l, g, q, k)
            (shown-plain c (escape_html s) a ∙ ap (λ t. c ∷ t) same, (ground arith, safe))
    ]

-- What `escapeHtml` writes has no `<`, no `>` and no quote of either kind, and a browser shows the
-- text that was given.
pub shown-escape_html :
    (s : Text) → (shown 0 (escape_html s) ≡ s) × All (λ c. is_markup c ≡ false) (escape_html s)
shown-escape_html s = escaped s
