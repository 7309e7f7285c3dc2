-- ===== src/Crossing/Identity.antt =====
-- outils/matching.ts: who is the same person.
pub mod Names
use paraphe.Common.{
  Bool, true, false, not, ◌&&◌, ◌||◌, Option, none, some, List, [], ◌∷◌, Text, codes, text_eq, keep,
  any, all, if◌then◌else◌, or_else, ◌>>=◌, lookup,
}
use paraphe.Texte.Difflib.{Score, Ratio, score, too_long, out_of_fuel, ratio, below}
use paraphe.Texte.Unicode.{Unicode}
use paraphe.Texte.Norm.{norm, sex_from_title}
use paraphe.Texte.Controls.{is_nil}
use paraphe.Messages.Render.{split}
use paraphe.Crossing.Entities.{Endorsement, Official, Person}

pub data Verdict : Type 0 where
  ok unsure different : Verdict

abbrev pub is_ok : Verdict → Bool
is_ok ok = true
is_ok _ = false

abbrev pub is_different : Verdict → Bool
is_different different = true
is_different _ = false

-- `[...x].every((v) => y.has(v))`
unfoldable pub subset : List Text → List Text → Bool
subset x y = all (λ v. any (λ w. text_eq w v) y) x

-- `Math.min(worst, r)`, where `none` is `Infinity`.
unfoldable pub least : Option Score → Score → Score
least none r = r
least (some worst) r = if below r worst then r else worst

-- The loop of `compareFirstNames`; `none` is an error of `ratio`.
unfoldable pub worst_ratio : List Text → List Text → Option Score → Option (Option Score)
worst_ratio (a ∷ ta) (b ∷ tb) worst = elim (ratio a b) [
  | score r ↦ worst_ratio ta tb (some (least worst r))
  | too_long ↦ none
  | out_of_fuel ↦ none
]
worst_ratio _ _ worst = some worst

-- The two thresholds at the end of `compareFirstNames`.
unfoldable pub verdict_of : Option Score → Verdict
verdict_of none = ok
verdict_of (some worst) =
    if not (below worst (record { num = 4; den = 5 }))
    then ok
    else if not (below worst (record { num = 3; den = 5 }))
    then unsure
    else different

-- `compareFirstNames` from the words of the two names on.
unfoldable pub compare_words : List Text → List Text → Option Verdict
compare_words [] tb = some unsure
compare_words (a ∷ ta) [] = some unsure
compare_words (a ∷ ta) (b ∷ tb) =
    if subset (a ∷ ta) (b ∷ tb) || subset (b ∷ tb) (a ∷ ta)
    then some ok
    else do worst ← worst_ratio (a ∷ ta) (b ∷ tb) none; some (verdict_of worst)

-- `JSON.stringify` of five texts tells them apart, so the key is the list of them.
abbrev pub Key : Type 0
Key = List Text

unfoldable pub same_key : Key → Key → Bool
same_key [] [] = true
same_key (s ∷ j) (t ∷ k) = text_eq s t && same_key j k
same_key _ _ = false

abbrev pub head_text : List Text → Text
head_text [] = []
head_text (t ∷ ts) = t

module _ (unicode : Unicode) where
  -- `norm(s).split(" ").filter(Boolean)`
  unfoldable pub name_words : Text → List Text
  name_words s = keep (λ w. not (is_nil w)) (split (norm unicode s) (codes " "))

  unfoldable pub compare_first_names : Text → Text → Option Verdict
  compare_first_names a b = compare_words (name_words a) (name_words b)

  -- `personKey`, from the fields of the object that it is given.
  unfoldable pub person_key : Text → Text → Text → Text → Text → Key
  person_key dept commune last_name first_name discriminator =
      norm unicode dept
      ∷ norm unicode commune
      ∷ norm unicode last_name
      ∷ head_text (name_words first_name)
      ∷ discriminator
      ∷ []

  -- `keyAmong`, by what `seen.get(key)` gives; `none` is an error of `ratio`.
  unfoldable pub key_beside : Endorsement → Option Person → Option Key
  key_beside p none = some (person_key p.dept p.commune p.last_name p.first_name [])
  key_beside p (some sharing) = do
    verdict ← compare_first_names sharing.first_name p.first_name
    some (
        person_key p.dept p.commune p.last_name p.first_name
          (if is_different verdict then norm unicode p.first_name else []))

  unfoldable pub key_among : Endorsement → List (Key × Person) → Option Key
  key_among p seen =
      key_beside p (lookup same_key seen (person_key p.dept p.commune p.last_name p.first_name []))

  -- The test of the last names in `compareIdentity`.
  unfoldable pub same_last_name : Text → Text → Bool
  same_last_name last_p last_r =
      text_eq last_p last_r
      || any (λ w. text_eq w last_p) (split last_r (codes " "))
      || any (λ w. text_eq w last_r) (split last_p (codes " "))

  -- `sexP && row.sex && sexP !== row.sex`
  unfoldable pub other_sex : Option Text → Text → Bool
  other_sex none sex = false
  other_sex (some sex_p) sex = not (is_nil sex) && not (text_eq sex_p sex)

  -- `compareIdentity`; `none` is an error of `ratio`.
  unfoldable pub compare_identity : Person → Official → Option Verdict
  compare_identity rec row =
      let last_p = norm unicode rec.last_name in
      let last_r = norm unicode row.last_name in
      if not (same_last_name last_p last_r) then some different else do
        verdict ← compare_first_names rec.first_name row.first_name
        some (
            if other_sex (sex_from_title unicode rec.civ) row.sex
            then (if text_eq last_p last_r
                  && text_eq (norm unicode rec.first_name) (norm unicode row.first_name)
                then unsure
                else if is_ok verdict
                then unsure
                else different)
            else verdict)
