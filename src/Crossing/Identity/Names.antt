-- ===== src/Crossing/Identity/Names.antt =====
-- outils/matching.ts: what the comparison of first names and the key of a person agree on.
use paraphe.Common.{
  true, false, some, List, [], ◌∷◌, Text, text_eq_self, ◌≡◌, refl, arith, ◌↔◌, sym, subst, keep,
  not, codes, text_eq_iff,
}
use paraphe.Texte.Unicode.{Unicode}
use paraphe.Texte.Norm.{norm}
use paraphe.Texte.Controls.{is_nil}
use paraphe.Messages.Render.{split, split_from}
use mathlib.Core.Option.{some-injective}
use paraphe.Crossing.Identity.{
  Key, same_key, Verdict, ok, unsure, is_different, subset, compare_words, compare_first_names,
  name_words,
}

subset-cons : (x y : List Text) (w : Text) → subset x y ≡ true → subset x (w ∷ y) ≡ true
unfolding subset
subset-cons [] y w h = refl
subset-cons (v ∷ x) y w h = ground (arith, subset-cons x y w)

pub subset_self : (x : List Text) → subset x x ≡ true
unfolding subset
subset_self [] = refl
subset_self (v ∷ x) = ground (arith, text_eq_self v, subset-cons x x v, subset_self x)

compare_words_self :
    (x : List Text) → (v : Verdict) × (compare_words x x ≡ some v) × (is_different v ≡ false)
unfolding compare_words
compare_words_self [] = (unsure, refl, refl)
compare_words_self (a ∷ x) = (ok, rw (subset_self (a ∷ x)) refl, refl)

-- A first name never contradicts itself.
pub compare_first_names_self :
    (unicode : Unicode) (s : Text)
    → (v : Verdict) × (compare_first_names unicode s s ≡ some v) × (is_different v ≡ false)
unfolding compare_first_names
compare_first_names_self unicode s = compare_words_self (name_words unicode s)

-- Nor two names of the same normal form.
pub compare_first_names-same_norm :
    (unicode : Unicode) (s t : Text)
    → norm unicode s ≡ norm unicode t
    → (v : Verdict) × (compare_first_names unicode s t ≡ some v) × (is_different v ≡ false)
unfolding compare_first_names name_words
compare_first_names-same_norm unicode s t e = rw (sym e) (compare_words_self _)

compare_words-nil :
    (x : List Text) (v : Verdict) → compare_words x [] ≡ some v → is_different v ≡ false
unfolding compare_words
compare_words-nil [] v h = subst (λ w. is_different w ≡ false) (some-injective unsure v h) refl
compare_words-nil (a ∷ x) v h = subst (λ w. is_different w ≡ false) (some-injective unsure v h) refl

-- A name of which nothing is left contradicts no other.
pub compare_first_names-nil :
    (unicode : Unicode) (s t : Text) (v : Verdict)
    → norm unicode t ≡ []
    → compare_first_names unicode s t ≡ some v
    → is_different v ≡ false
unfolding compare_first_names name_words split split_from
compare_first_names-nil unicode s t v e h = compare_words-nil (name_words unicode s) v (
    subst
      (λ n.
        compare_words (name_words unicode s) (keep (λ w. not (is_nil w)) (split n (codes " ")))
        ≡ some v)
      e h)

pub same_key_self : (k : Key) → same_key k k ≡ true
unfolding same_key
same_key_self [] = refl
same_key_self (t ∷ k) = ground (arith, text_eq_self t, same_key_self k)

eq_of_same_key : (j k : Key) → same_key j k ≡ true → j ≡ k
unfolding same_key
eq_of_same_key [] [] h = refl
eq_of_same_key [] (t ∷ k) h = cc
eq_of_same_key (s ∷ j) [] h = cc
eq_of_same_key (s ∷ j) (t ∷ k) h =
    let p : s ≡ t = ground (arith, text_eq_iff s t) in
    let q : j ≡ k = eq_of_same_key j k (ground arith) in cc

pub same_key_iff : (j k : Key) → (same_key j k ≡ true) ↔ (j ≡ k)
same_key_iff j k = (eq_of_same_key j k, λ e. subst (λ i. same_key j i ≡ true) e (same_key_self j))
