-- ===== src/Crossing/Dedupe.antt =====
-- outils/matching.ts: one row per INSEE code.
pub mod Rows
pub mod Codes
pub mod Survivors
use paraphe.Common.{
  ℕ, ◌+◌, ◌*◌, Bool, true, false, ◌&&◌, ◌||◌, Option, none, some, List, [], ◌∷◌, ◌++◌, map, Text,
  codes, text_eq, keep, any, length, leb, ltb, ◌==◌, if◌then◌else◌, ◌>>=◌, lookup, insert, sort_by,
  includes,
}
use paraphe.Texte.Unicode.{Unicode}
use paraphe.Messages.Words.{text_lt, sort_texts}
use paraphe.Crossing.Entities.{Person, Target}
use paraphe.Crossing.Identity.{compare_first_names, is_different}

-- `indexOf(conf) + 1 || Number.MAX_SAFE_INTEGER`
unfoldable pub confidence_rank : Text → ℕ
confidence_rank conf =
    if text_eq (codes "exact") conf
    then 1
    else if text_eq (codes "commune approchée") conf
    then 2
    else if text_eq (codes "retrouvé par nom") conf
    then 3
    else 9007199254740991

-- `[...new Set([...seen, ...ts])]`, where no text of `seen` occurs twice.
unfoldable pub union : List Text → List Text → List Text
union seen [] = seen
union seen (t ∷ ts) = union (if any (text_eq t) seen then seen else seen ++ t ∷ []) ts

-- `for (const y of ys) years.add(y)`
unfoldable pub add_years : List ℕ → List ℕ → List ℕ
add_years years [] = years
add_years years (y ∷ ys) = add_years (if any (λ z. z == y) years then years else years ++ y ∷ []) ys

abbrev pub with_class : Text → List Text → ℕ
with_class class tags = length (keep (λ t. includes t class) tags)

-- `merged` of `dedupeByInsee`: the scores of the tags and of the years.
unfoldable pub score_of : List Text → List ℕ → ℕ
score_of small years =
    2 * with_class (codes "(A)") small
    + with_class (codes "(B)") small
    + (if leb 2 (length years) then 1 else 0)

-- The survivor of two rows of one person.
unfoldable pub merge : Target → Target → Target
merge target r =
    let p = target.person in
    let q = r.person in
    let better = ltb (confidence_rank r.conf) (confidence_rank target.conf) in
    let small = sort_texts (union (union [] p.small) q.small) in
    let years = add_years p.years q.years in
    record target {
      conf = if better then r.conf else target.conf;
      person = record p {
        commune = if better then q.commune else p.commune;
        commune_n = if better then q.commune_n else p.commune_n;
        small = small;
        others = sort_texts (union (union [] p.others) q.others);
        years = years;
        score = score_of small years;
      };
    }

-- `byInsee` and `mergedSpellings`.
pub record Merging : Type 0 where
  pub by_insee : List (Text × Target)
  pub merged_spellings : ℕ

-- The comparator of the last sort: `x` comes before `y`.
unfoldable pub target_before : Target → Target → Bool
target_before x y =
    ltb y.person.score x.person.score
    || (x.person.score == y.person.score
        && (text_lt x.person.dept y.person.dept
            || (text_eq x.person.dept y.person.dept && text_lt x.person.commune y.person.commune)))

module _ (unicode : Unicode) where
  -- A round of the loop, by what `byInsee.get(k)` gives; `none` is an error.
  unfoldable pub file_row : Merging → Target → Option Target → Option Merging
  file_row m r none = some (record m { by_insee = insert text_eq m.by_insee r.rne.insee r })
  file_row m r (some target) = do
    verdict ← compare_first_names unicode target.person.first_name r.person.first_name
    if is_different verdict
        then none
        else some (record {
          by_insee = insert text_eq m.by_insee r.rne.insee (merge target r);
          merged_spellings = m.merged_spellings + 1;
        })

  unfoldable pub file_rows : List Target → Merging → Option Merging
  file_rows [] m = some m
  file_rows (r ∷ rows) m = do
    m' ← file_row m r (lookup text_eq m.by_insee r.rne.insee)
    file_rows rows m'

  -- `dedupeByInsee`; `none` is an error.
  unfoldable pub dedupe_by_insee : List Target → Option (List Target × ℕ)
  dedupe_by_insee rows = do
    m ← file_rows rows (record { by_insee = []; merged_spellings = 0 })
    some (sort_by target_before (map (λ (k, t). t) m.by_insee), m.merged_spellings)
