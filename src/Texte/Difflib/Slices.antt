-- ===== src/Texte/Difflib/Slices.antt =====
-- noyau/texte.ts, `indexOfB`: slices of a text, and the positions of a character.
use paraphe.Common.{
  ℕ, zero, suc, ◌+◌, ◌-◌, ◌≤◌, some, List, [], ◌∷◌, ◌++◌, Text, ◌==◌, if◌then◌else◌, or_else,
  get_elem?, take, drop, ◌≡◌, refl, ap, ◌∙◌, arith, All, All-append, Bool-cases, inl, inr,
}
use paraphe.Texte.Difflib.{find, store, index_from, index_of_b}

-- The `k` characters of `s` from the position `i` on.
abbrev pub slice : Text → ℕ → ℕ → Text
slice s i k = take k (drop i s)

get_elem?-drop : (s : Text) (i k : ℕ) → get_elem? (drop i s) k ≡ get_elem? s (i + k)
get_elem?-drop s zero k = let e : 0 + k ≡ k = omega arith in rw e
get_elem?-drop [] (suc i) k = refl
get_elem?-drop (c ∷ s) (suc i) k =
    let e : suc i + k ≡ suc (i + k) = omega arith in rw e (get_elem?-drop s i k)

take-suc : (s : Text) (k c : ℕ) → get_elem? s k ≡ some c → take (suc k) s ≡ take k s ++ c ∷ []
take-suc [] k c h = cc
take-suc (d ∷ s) zero c h = let e : d ≡ c = ground arith in rw e
take-suc (d ∷ s) (suc k) c h = ap (◌∷◌ d) (take-suc s k c h)

-- A slice grows by the character behind it.
pub slice-suc :
    (s : Text) (i k c : ℕ)
    → get_elem? s (i + k) ≡ some c
    → slice s i (suc k) ≡ slice s i k ++ c ∷ []
slice-suc s i k c h = take-suc (drop i s) k c (get_elem?-drop s i k ∙ h)

-- The same, with the slice named by its end.
pub slice_to :
    (s : Text) (i k c : ℕ)
    → k ≤ i
    → get_elem? s i ≡ some c
    → slice s (i + 1 - (k + 1)) (k + 1) ≡ slice s (i - k) k ++ c ∷ []
slice_to s i k c h e =
    let start : i + 1 - (k + 1) ≡ i - k = omega arith in
    let size : k + 1 ≡ suc k = omega arith in
    let end : i - k + k ≡ i = omega arith in rw (start, size) (slice-suc s (i - k) k c (rw end e))

module _ {ℓ} {A : Type ℓ} where
  pub find-store :
      (m : List (ℕ × A)) (k j : ℕ) (v : A)
      → find (store m k v) j ≡ (if k == j then some v else find m j)
  unfolding find store
  find-store [] k j v = refl
  find-store ((i, w) ∷ m) k j v = ground (arith, find-store m k j v)

-- Every position that the index lists for a character holds that character.
abbrev pub IsIndex : Text → List (ℕ × List ℕ) → Type 0
IsIndex b b2j = (c : ℕ) → All (λ j. get_elem? b j ≡ some c) (or_else (find b2j c) [])

store-IsIndex :
    (b : Text) (b2j : List (ℕ × List ℕ)) (j c : ℕ)
    → get_elem? b j ≡ some c
    → IsIndex b b2j
    → IsIndex b (store b2j c (or_else (find b2j c) [] ++ j ∷ []))
store-IsIndex b b2j j c h ok c' =
    rw (find-store b2j c c' (or_else (find b2j c) [] ++ j ∷ [])) (elim (Bool-cases (c == c')) [
      | inl e ↦
          let same : c ≡ c' = ground arith in
          rw e (
            All-append _ (or_else (find b2j c) []) (j ∷ []) (rw (← same) (ok c))
              (rw (← same) (h, tt)))
      | inr e ↦ rw e (ok c')
    ])

index_from-IsIndex :
    (b : Text) (j : ℕ) (rest : Text) (b2j : List (ℕ × List ℕ))
    → ((n : ℕ) → get_elem? b (j + n) ≡ get_elem? rest n)
    → IsIndex b b2j
    → IsIndex b (index_from j rest b2j)
unfolding index_from
index_from-IsIndex b j [] b2j h ok = ok
index_from-IsIndex b j (c ∷ rest) b2j h ok =
    index_from-IsIndex b (j + 1) rest _
      (λ n. let e : j + 1 + n ≡ j + suc n = omega arith in rw e (h (suc n)))
      (store-IsIndex b b2j j c (let e : j + 0 ≡ j = omega arith in rw e at (h 0)) ok)

pub index_of_b-IsIndex : (b : Text) → IsIndex b (index_of_b b)
unfolding index_of_b find
index_of_b-IsIndex b =
    index_from-IsIndex b 0 b [] (λ n. let e : 0 + n ≡ n = omega arith in rw e) (λ c. tt)
