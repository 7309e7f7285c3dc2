-- ===== src/Texte/Controls/Clean.antt =====
-- noyau/texte.ts: what `stripControls` leaves of a text.
use paraphe.Common.{
  ℕ, true, false, ◌&&◌, Option, none, some, List, [], ◌∷◌, Text, ◌==◌, ◌≡◌, refl, ap, ◌∙◌, All,
  arith, Bool-cases, Option-cases, inl, inr, or_else, ==_iff, subst, Bool, all, not, if◌then◌else◌,
}
use mathlib.Core.Option.{some-injective}
use paraphe.Texte.Difflib.{find}
use paraphe.Texte.Controls.{
  is_space, is_control, cp1252, decode, decode_all, starts_space, tail, squeeze, trim_start, is_nil,
  trim_end, trim, strip_controls,
}

-- No two white-space characters follow each other.
pub IsSpaced : Text → Type 0
IsSpaced [] = Unit {0}
IsSpaced (c ∷ s) = (is_space c && starts_space s ≡ false) × IsSpaced s

abbrev pub IsPlain : Text → Type 0
IsPlain = All (λ c. is_control c ≡ false)

IsSpaced-tail : (s : Text) → starts_space s ≡ true → IsSpaced s → IsSpaced (32 ∷ tail s)
unfolding IsSpaced starts_space is_space
IsSpaced-tail [] e h = cc
IsSpaced-tail (c ∷ s) e (p, h) = (subst (λ b. b && starts_space s ≡ false) e p, h)

squeeze-IsSpaced : (s : Text) → IsSpaced (squeeze s)
unfolding squeeze IsSpaced
squeeze-IsSpaced [] = tt
squeeze-IsSpaced (c ∷ s) = elim (Bool-cases (is_space c && starts_space (squeeze s))) [
  | inl e ↦ rw e (IsSpaced-tail (squeeze s) (ground arith) (squeeze-IsSpaced s))
  | inr e ↦ rw e (e, squeeze-IsSpaced s)
]

squeeze_fixed : (s : Text) → IsSpaced s → squeeze s ≡ s
unfolding IsSpaced squeeze
squeeze_fixed [] h = refl
squeeze_fixed (c ∷ s) (p, h) = rw (squeeze_fixed s h, p) refl

trim_start-IsSpaced : (s : Text) → IsSpaced s → IsSpaced (trim_start s)
unfolding IsSpaced trim_start
trim_start-IsSpaced [] h = tt
trim_start-IsSpaced (c ∷ s) (p, h) = elim (Bool-cases (is_space c)) [
  | inl e ↦ rw e (trim_start-IsSpaced s h)
  | inr e ↦ rw e (p, h)
]

starts_space-trim_end : (s : Text) → starts_space s ≡ false → starts_space (trim_end s) ≡ false
unfolding starts_space trim_end
starts_space-trim_end [] h = refl
starts_space-trim_end (c ∷ s) h = rw h h

starts_space-trim_start : (s : Text) → starts_space (trim_start s) ≡ false
unfolding starts_space trim_start
starts_space-trim_start [] = refl
starts_space-trim_start (c ∷ s) = elim (Bool-cases (is_space c)) [
  | inl e ↦ rw e (starts_space-trim_start s)
  | inr e ↦ rw e e
]

trim_end-IsSpaced : (s : Text) → IsSpaced s → IsSpaced (trim_end s)
unfolding IsSpaced trim_end
trim_end-IsSpaced [] h = tt
trim_end-IsSpaced (c ∷ s) (p, h) = elim (Bool-cases (is_space c && is_nil (trim_end s))) [
  | inl e ↦ rw e tt
  | inr e ↦ rw e (ground (arith, starts_space-trim_end s), trim_end-IsSpaced s h)
]

trim_start_fixed : (s : Text) → starts_space s ≡ false → trim_start s ≡ s
unfolding starts_space trim_start
trim_start_fixed [] h = refl
trim_start_fixed (c ∷ s) h = rw h refl

pub trim_end_fixed : (s : Text) → trim_end (trim_end s) ≡ trim_end s
unfolding trim_end
trim_end_fixed [] = refl
trim_end_fixed (c ∷ s) = elim (Bool-cases (is_space c && is_nil (trim_end s))) [
  | inl e ↦ rw e refl
  | inr e ↦ rw e (rw (trim_end_fixed s, e) refl)
]

pub trim_fixed : (s : Text) → trim (trim s) ≡ trim s
unfolding trim
trim_fixed s =
    ap trim_end (
      trim_start_fixed (trim_end (trim_start s))
        (starts_space-trim_end (trim_start s) (starts_space-trim_start s)))
    ∙ trim_end_fixed (trim_start s)

trim-IsSpaced : (s : Text) → IsSpaced s → IsSpaced (trim s)
unfolding trim
trim-IsSpaced s h = trim_end-IsSpaced (trim_start s) (trim_start-IsSpaced s h)

trim_start-IsPlain : (s : Text) → IsPlain s → IsPlain (trim_start s)
unfolding trim_start
trim_start-IsPlain [] h = tt
trim_start-IsPlain (c ∷ s) (p, h) = elim (Bool-cases (is_space c)) [
  | inl e ↦ rw e (trim_start-IsPlain s h)
  | inr e ↦ rw e (p, h)
]

trim_end-IsPlain : (s : Text) → IsPlain s → IsPlain (trim_end s)
unfolding trim_end
trim_end-IsPlain [] h = tt
trim_end-IsPlain (c ∷ s) (p, h) = elim (Bool-cases (is_space c && is_nil (trim_end s))) [
  | inl e ↦ rw e tt
  | inr e ↦ rw e (p, trim_end-IsPlain s h)
]

trim-IsPlain : (s : Text) → IsPlain s → IsPlain (trim s)
unfolding trim
trim-IsPlain s h = trim_end-IsPlain (trim_start s) (trim_start-IsPlain s h)

IsPlain-tail : (s : Text) → IsPlain s → IsPlain (tail s)
IsPlain-tail [] h = tt
IsPlain-tail (c ∷ s) (p, h) = h

space-IsPlain : is_control 32 ≡ false
unfolding is_control
space-IsPlain = refl

squeeze-IsPlain : (s : Text) → IsPlain s → IsPlain (squeeze s)
unfolding squeeze
squeeze-IsPlain [] h = tt
squeeze-IsPlain (c ∷ s) (p, h) = elim (Bool-cases (is_space c && starts_space (squeeze s))) [
  | inl e ↦ rw e (space-IsPlain, IsPlain-tail (squeeze s) (squeeze-IsPlain s h))
  | inr e ↦ rw e (p, squeeze-IsPlain s h)
]

-- Every entry of a map replaces a control by a character that is none.
abbrev is_table : List (ℕ × ℕ) → Bool
is_table = all (λ (k, v). is_control k && not (is_control v))

cp1252-is_table : is_table cp1252 ≡ true
unfolding is_control
cp1252-is_table = refl

find-IsPlain :
    (m : List (ℕ × ℕ)) (c r : ℕ) → is_table m ≡ true → find m c ≡ some r → is_control r ≡ false
unfolding find
find-IsPlain [] c r h e = cc
find-IsPlain ((k, v) ∷ m) c r h e = elim (Bool-cases (k == c)) [
  | inl e' ↦
      let e'' : v ≡ r =
        some-injective v r (subst (λ b. (if b then some v else find m c) ≡ some r) e' e) in
      let q : is_control v ≡ false = ground (arith, h) in subst (λ x. is_control x ≡ false) e'' q
  | inr e' ↦
      find-IsPlain m c r (ground (arith, h))
        (subst (λ b. (if b then some v else find m c) ≡ some r) e' e)
]

find-plain : (m : List (ℕ × ℕ)) (c : ℕ) → is_table m ≡ true → is_control c ≡ false → find m c ≡ none
unfolding find
find-plain [] c h e = refl
find-plain ((k, v) ∷ m) c h e = elim (Bool-cases (k == c)) [
  | inl e' ↦
      let e'' : k ≡ c = (==_iff k c).0 e' in
      let q : is_control k ≡ true = ground (arith, h) in
      let q' : is_control c ≡ true = subst (λ x. is_control x ≡ true) e'' q in cc
  | inr e' ↦ rw e' (find-plain m c (ground (arith, h)) e)
]

module _ (table : List (ℕ × ℕ)) (c : ℕ) where
  decode-of_none : find table c ≡ none → decode table c ≡ (if is_control c then 32 else c)
  unfolding decode
  decode-of_none e = rw (e, decode) refl

  decode-of_some : (r : ℕ) → find table c ≡ some r → decode table c ≡ r
  unfolding decode
  decode-of_some r e = rw (e, decode) refl

  decode-IsPlain : is_table table ≡ true → is_control (decode table c) ≡ false
  decode-IsPlain h = elim (Option-cases (find table c)) [
    | inr (r, e) ↦ rw (decode-of_some r e) (find-IsPlain table c r h e)
    | inl e ↦
        rw (decode-of_none e)
          (elim (Bool-cases (is_control c)) [ inl p ↦ rw p space-IsPlain | inr p ↦ rw (p, p) refl ])
  ]

  decode_fixed : is_table table ≡ true → is_control c ≡ false → decode table c ≡ c
  decode_fixed h p = decode-of_none (find-plain table c h p) ∙ rw p refl

decode_all-IsPlain : (s : Text) → IsPlain (decode_all s)
unfolding decode_all
decode_all-IsPlain [] = tt
decode_all-IsPlain (c ∷ s) = (decode-IsPlain cp1252 c cp1252-is_table, decode_all-IsPlain s)

decode_all_fixed : (s : Text) → IsPlain s → decode_all s ≡ s
unfolding decode_all
decode_all_fixed [] h = refl
decode_all_fixed (c ∷ s) (p, h) =
    rw (decode_all_fixed s h, decode_fixed cp1252 c cp1252-is_table p) refl

-- `stripControls` (in noyau/messages.ts `clean`) leaves no control character, no two white-space
-- characters in a row and none at either end, and cleaning a cleaned text changes nothing.
pub strip_controls-IsClean :
    (s : Option Text)
    → IsPlain (strip_controls s)
      × IsSpaced (strip_controls s)
      × (trim (strip_controls s) ≡ strip_controls s)
      × (strip_controls (some (strip_controls s)) ≡ strip_controls s)
unfolding strip_controls
strip_controls-IsClean s =
    let t = or_else s [] in
    let u = squeeze (decode_all t) in
    let plain = trim-IsPlain u (squeeze-IsPlain (decode_all t) (decode_all-IsPlain t)) in
    let spaced = trim-IsSpaced u (squeeze-IsSpaced (decode_all t)) in
    (
      plain,
      spaced,
      trim_fixed u,
      rw (decode_all_fixed (trim u) plain, squeeze_fixed (trim u) spaced) (trim_fixed u),
    )
