-- ===== src/Texte/Controls.antt =====
-- noyau/texte.ts: the control characters of the directory, and the white space around words.
pub mod Clean
use paraphe.Common.{
  ℕ, Bool, true, false, ◌&&◌, ◌||◌, Option, none, some, List, [], ◌∷◌, Text, leb, ◌==◌, ltb,
  if◌then◌else◌, or_else,
}
use paraphe.Texte.Difflib.{find}

-- `\s`
unfoldable pub is_space : ℕ → Bool
is_space c =
    (leb 9 c && leb c 13)
    || c == 32
    || c == 0xa0
    || c == 0x1680
    || (leb 0x2000 c && leb c 0x200a)
    || c == 0x2028
    || c == 0x2029
    || c == 0x202f
    || c == 0x205f
    || c == 0x3000
    || c == 0xfeff

-- `isControl`
unfoldable pub is_control : ℕ → Bool
is_control p = ltb p 0x20 || (leb 0x7f p && leb p 0x9f)

abbrev pub cp1252 : List (ℕ × ℕ)
cp1252 =
    (128, 0x20ac)
    ∷ (130, 0x201a)
    ∷ (131, 0x192)
    ∷ (132, 0x201e)
    ∷ (133, 0x2026)
    ∷ (134, 0x2020)
    ∷ (135, 0x2021)
    ∷ (136, 0x2c6)
    ∷ (137, 0x2030)
    ∷ (138, 0x160)
    ∷ (139, 0x2039)
    ∷ (140, 0x152)
    ∷ (142, 0x17d)
    ∷ (145, 0x2018)
    ∷ (146, 0x2019)
    ∷ (147, 0x201c)
    ∷ (148, 0x201d)
    ∷ (149, 0x2022)
    ∷ (150, 0x2013)
    ∷ (151, 0x2014)
    ∷ (152, 0x2dc)
    ∷ (153, 0x2122)
    ∷ (154, 0x161)
    ∷ (155, 0x203a)
    ∷ (156, 0x153)
    ∷ (158, 0x17e)
    ∷ (159, 0x178)
    ∷ []

-- One round of the loop of `stripControls`: what it adds to `out`.
unfoldable pub decode : List (ℕ × ℕ) → ℕ → ℕ
decode table c = elim (find table c) [ some r ↦ r | none ↦ if is_control c then 32 else c ]

unfoldable pub decode_all : Text → Text
decode_all [] = []
decode_all (c ∷ s) = decode cp1252 c ∷ decode_all s

unfoldable pub starts_space : Text → Bool
starts_space [] = false
starts_space (c ∷ s) = is_space c

abbrev pub tail : Text → Text
tail [] = []
tail (c ∷ s) = s

-- `s.replace(/\s{2,}/g, " ")`
unfoldable pub squeeze : Text → Text
squeeze [] = []
squeeze (c ∷ s) =
    let rest = squeeze s in if is_space c && starts_space rest then 32 ∷ tail rest else c ∷ rest

unfoldable pub trim_start : Text → Text
trim_start [] = []
trim_start (c ∷ s) = if is_space c then trim_start s else c ∷ s

abbrev pub is_nil : Text → Bool
is_nil [] = true
is_nil (c ∷ s) = false

unfoldable pub trim_end : Text → Text
trim_end [] = []
trim_end (c ∷ s) = let rest = trim_end s in if is_space c && is_nil rest then [] else c ∷ rest

-- `s.trim()`
unfoldable pub trim : Text → Text
trim s = trim_end (trim_start s)

-- `stripControls`, and `clean` of noyau/messages.ts: the two functions have the same body, on a
-- text that is missing where `s` is null or undefined.
unfoldable pub strip_controls : Option Text → Text
strip_controls s = trim (squeeze (decode_all (or_else s [])))
