-- ===== src/Texte/Ascii.antt =====
-- noyau/texte.ts: the character tables on ASCII, for tests.
use paraphe.Common.{false, ◌&&◌, ◌||◌, Text, map, leb, ◌+◌, ◌-◌, if◌then◌else◌}
use paraphe.Texte.Unicode.{Unicode}

abbrev pub lower : Text → Text
lower = map (λ c. if leb 65 c && leb c 90 then c + 32 else c)

abbrev pub upper : Text → Text
upper = map (λ c. if leb 97 c && leb c 122 then c - 32 else c)

-- The letters of ASCII.
abbrev pub ascii : Unicode
ascii = record {
  is_letter = λ c. (leb 65 c && leb c 90) || (leb 97 c && leb c 122);
  to_upper = upper;
  to_lower = lower;
  nfd = λ s. s;
  nfc = λ s. s;
  is_mark = λ c. false;
}
