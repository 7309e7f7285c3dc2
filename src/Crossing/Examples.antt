-- ===== src/Crossing/Examples.antt =====
-- Tests of the crossing, and its theorems at concrete inputs.
use paraphe.Common.{
  ℕ, ◌+◌, none, some, List, [], ◌∷◌, ◌++◌, map, Text, codes, text_eq, length, keep, any, All,
  Exists, or_else, lookup, insert, if◌then◌else◌, sort_by, inl, ◌≡◌, refl, decimal, digits_from,
  starts_with, includes,
}
use paraphe.Texte.Ascii.{ascii}
use paraphe.Texte.Norm.{
  norm, expand_saints, replace_word, starts_word, is_word, collapse, single_spaces,
  replace_separators, is_separator, replace_ligatures, sex_from_title, strip_dot, tight,
}
use paraphe.Texte.Controls.{is_space, starts_space, trim, trim_start, trim_end}
use paraphe.Texte.Difflib.{
  below, drain, find, index_from, index_of_b, length_before, longest_match, matched, over_total,
  positions, push_left, push_right, ratio, search_rows, store, visit, visit_all, closest_match,
}
use paraphe.Messages.Render.{split, split_from}
use paraphe.Crossing.Entities.{Endorsement, Official, Person, Target}
use paraphe.Crossing.Identity.{
  Key, same_key, ok, different, compare_first_names, name_words, compare_words, subset, worst_ratio,
  least, verdict_of, same_last_name, other_sex, compare_identity, person_key, key_beside, key_among,
}
use paraphe.Crossing.Dedupe.{
  add_years, score_of, merge, target_before, file_row, file_rows, dedupe_by_insee,
}
use paraphe.Crossing.Dedupe.Codes.{has_code}
use paraphe.Crossing.Dedupe.Survivors.{StandsFor, Contradicts}
use paraphe.Crossing.Dedupe.Survivors
use paraphe.Crossing.Persons.{
  tier_a, tier_b, is_presented, check_tiers, tag_of, sign, with_bonus, targets_of, new_person,
  file_mayor, file_endorsement, file_endorsements,
}
use paraphe.Crossing.Persons.Keys
use paraphe.Crossing.Persons.Scores
use paraphe.Crossing.Sources.{Rne}
use paraphe.Crossing.Match.{
  Places, places_of, find_row, find_row_in, find_close, same_tight, verdict_on, hits_among, judge,
  classify, replaced, label_of, labels_of, add_label, after_hyphen, dept_codes, department_of_insee,
  signed_insee, is_elsewhere, fall_back, status_of,
}
use paraphe.Crossing.Cross.{
  Crossed, Result, nothing_crossed, stat_of, add_stat, settle, cross, cross_targets, cross_sources,
}
use paraphe.Crossing.Cross.Accounts
use paraphe.Crossing.Cross.Confirmed.{IsConfirmed}
use paraphe.Crossing.Cross.Confirmed
use paraphe.Crossing.Cross.Replaced

norm_test :
    norm ascii (codes " St-Denis  d'Oleron (Ste Marie) ")
    ≡ codes "SAINT DENIS D OLERON SAINTE MARIE"
unfolding norm expand_saints replace_word collapse trim trim_end trim_start single_spaces
    replace_separators replace_ligatures is_space is_separator starts_space starts_word is_word
norm_test = refl

tight_test : tight ascii (codes "Cram-Chaban") ≡ tight ascii (codes "Cramchaban")
unfolding tight norm expand_saints replace_word collapse trim trim_end trim_start single_spaces
    replace_separators replace_ligatures is_space is_separator starts_space starts_word is_word
tight_test = refl

truncation_test : compare_first_names ascii (codes "Jean-Louis") (codes "Louis") ≡ some ok
unfolding compare_first_names compare_words name_words split split_from starts_with text_eq least
    subset verdict_of worst_ratio norm expand_saints replace_word collapse trim trim_end trim_start
    single_spaces replace_separators replace_ligatures is_space is_separator starts_space
    starts_word is_word below drain find index_from index_of_b length_before longest_match matched
    over_total positions push_left push_right ratio search_rows store visit visit_all
truncation_test = refl

contradiction_test : compare_first_names ascii (codes "Jean") (codes "Paul") ≡ some different
unfolding compare_first_names compare_words name_words split split_from starts_with text_eq least
    subset verdict_of worst_ratio norm expand_saints replace_word collapse trim trim_end trim_start
    single_spaces replace_separators replace_ligatures is_space is_separator starts_space
    starts_word is_word below drain find index_from index_of_b length_before longest_match matched
    over_total positions push_left push_right ratio search_rows store visit visit_all
contradiction_test = refl

abbrev person_named : Text → Person
person_named first_name = record {
  civ = codes "M.";
  last_name = codes "DUPONT";
  first_name = first_name;
  commune = codes "Bourg";
  dept = codes "Ain";
  office = codes "Maire";
  small = codes "2017: LASSALLE Jean (B)" ∷ [];
  others = [];
  years = 2017 ∷ [];
  score = 1;
  status = none;
  commune_insee = none;
  dept_n = codes "AIN";
  commune_n = codes "BOURG";
}

abbrev mayor_of : Text → Official
mayor_of first_name = record {
  dept = codes "Ain";
  insee = codes "01053";
  commune = codes "Bourg";
  last_name = codes "DUPONT";
  first_name = first_name;
  sex = codes "M";
}

abbrev target_named : Text → Target
target_named first_name = record {
  person = person_named first_name;
  rne = mayor_of (codes "Jean-Louis");
  contact = none;
  conf = codes "exact";
}

abbrev two_rows : List Target
two_rows = target_named (codes "Jean-Louis") ∷ target_named (codes "Louis") ∷ []

abbrev one_row : Target
one_row = merge (target_named (codes "Jean-Louis")) (target_named (codes "Louis"))

merged_test : dedupe_by_insee ascii two_rows ≡ some (one_row ∷ [], 1)
unfolding dedupe_by_insee file_rows file_row lookup insert sort_by target_before compare_first_names
    compare_words name_words split split_from starts_with text_eq least subset verdict_of
    worst_ratio norm expand_saints replace_word collapse trim trim_end trim_start single_spaces
    replace_separators replace_ligatures is_space is_separator starts_space starts_word is_word
    below drain find index_from index_of_b length_before longest_match matched over_total positions
    push_left push_right ratio search_rows store visit visit_all
merged_test = refl

dedupe_by_insee-codes_example :
    length (keep (has_code (codes "01053")) (one_row ∷ []))
    ≡ (if any (has_code (codes "01053")) two_rows then 1 else 0)
dedupe_by_insee-codes_example =
    Survivors.dedupe_by_insee-codes ascii two_rows (one_row ∷ []) 1 (codes "01053") merged_test

dedupe_by_insee-StandsFor_example : All (λ r. Exists (StandsFor ascii r) (one_row ∷ [])) two_rows
dedupe_by_insee-StandsFor_example =
    Survivors.dedupe_by_insee-StandsFor ascii two_rows (one_row ∷ []) 1 merged_test

abbrev paul : Target
paul = target_named (codes "Paul")

paul-Contradicts : Exists (Contradicts ascii (target_named (codes "Jean"))) (paul ∷ [])
unfolding compare_first_names compare_words name_words split split_from starts_with text_eq least
    subset verdict_of worst_ratio norm expand_saints replace_word collapse trim trim_end trim_start
    single_spaces replace_separators replace_ligatures is_space is_separator starts_space
    starts_word is_word below drain find index_from index_of_b length_before longest_match matched
    over_total positions push_left push_right ratio search_rows store visit visit_all
paul-Contradicts = inl (refl, refl)

dedupe_by_insee-refuses_example :
    dedupe_by_insee ascii (target_named (codes "Jean") ∷ paul ∷ []) ≡ none
dedupe_by_insee-refuses_example =
    Survivors.dedupe_by_insee-refuses ascii [] (paul ∷ []) (target_named (codes "Jean")) refl
      paul-Contradicts

abbrev endorsed : Text → ℕ → Text → Text → Endorsement
endorsed office year first_name candidate = record {
  year = year;
  civ = codes "M.";
  last_name = codes "DUPONT";
  first_name = first_name;
  office = office;
  commune = codes "Bourg";
  dept = codes "Ain";
  candidate = candidate;
}

-- A deputy presents each candidate of the configuration.
abbrev of_deputies : List Endorsement
of_deputies =
    map (endorsed (codes "Député") 2017 (codes "Paul")) (tier_a 2017 ++ tier_b 2017)
    ++ map (endorsed (codes "Député") 2022 (codes "Paul")) (tier_a 2022 ++ tier_b 2022)

abbrev of_mayors : List Endorsement
of_mayors =
    endorsed (codes "Maire") 2017 (codes "Jean-Louis") (codes "LASSALLE Jean")
    ∷ endorsed (codes "Maire") 2022 (codes "Jean") (codes "LASSALLE Jean")
    ∷ endorsed (codes "Maire") 2022 (codes "Jean-Marc") (codes "EGGER Clara")
    ∷ []

abbrev persons : List (Key × Person)
persons = or_else (file_endorsements ascii of_mayors []) []

persons_test : file_endorsements ascii of_mayors [] ≡ some persons
unfolding file_endorsements file_endorsement file_mayor key_among key_beside person_key same_key
    sign tier_a tier_b tag_of decimal digits_from new_person lookup insert compare_first_names
    compare_words name_words split split_from starts_with text_eq least subset verdict_of
    worst_ratio norm expand_saints replace_word collapse trim trim_end trim_start single_spaces
    replace_separators replace_ligatures is_space is_separator starts_space starts_word is_word
    below drain find index_from index_of_b length_before longest_match matched over_total positions
    push_left push_right ratio search_rows store visit visit_all
persons_test = refl

targets_of-score_example : All (λ v. v.score ≡ score_of v.small v.years) (targets_of persons)
targets_of-score_example = Scores.targets_of-score ascii of_mayors persons persons_test

abbrev jean_marc : Endorsement
jean_marc = endorsed (codes "Maire") 2017 (codes "Jean-Marc Louis") (codes "LASSALLE Jean")

abbrev key_of_jean_marc : Key
key_of_jean_marc =
    person_key ascii (codes "Ain") (codes "Bourg") (codes "DUPONT") (codes "Jean-Marc Louis") []

abbrev found_person : Person
found_person = or_else (lookup same_key persons key_of_jean_marc) (person_named [])

abbrev register : Rne
register = record {
  by_commune = (codes "AIN", (codes "BOURG", mayor_of (codes "Jean-Louis")) ∷ []) ∷ [];
  by_person = (codes "AIN", mayor_of (codes "Jean-Louis") ∷ []) ∷ [];
}

abbrev places : Places
places = places_of ascii register []

abbrev crossed : Crossed
crossed =
    or_else
      (cross ascii places (person_named (codes "Jean-Louis") ∷ person_named (codes "Paul") ∷ [])
        nothing_crossed)
      nothing_crossed

crossed_test :
    cross ascii places
      (person_named (codes "Jean-Louis") ∷ person_named (codes "Paul") ∷ [])
      nothing_crossed
    ≡ some crossed
unfolding cross settle add_stat stat_of classify find_row find_row_in find_close same_tight tight
    closest_match verdict_on hits_among judge fall_back signed_insee is_elsewhere status_of
    compare_identity same_last_name other_sex sex_from_title strip_dot compare_first_names
    compare_words name_words split split_from starts_with text_eq least subset verdict_of
    worst_ratio norm expand_saints replace_word collapse trim trim_end trim_start single_spaces
    replace_separators replace_ligatures is_space is_separator starts_space starts_word is_word
    below drain find index_from index_of_b length_before longest_match matched over_total positions
    push_left push_right ratio search_rows store visit visit_all lookup insert places_of labels_of
    add_label label_of after_hyphen dept_codes department_of_insee includes
crossed_test = refl

cross-IsConfirmed_example : All (IsConfirmed ascii) crossed.still_mayors
cross-IsConfirmed_example =
    Confirmed.cross-IsConfirmed ascii places
      (person_named (codes "Jean-Louis") ∷ person_named (codes "Paul") ∷ []) nothing_crossed crossed
      tt crossed_test

successor_test :
    classify ascii places (person_named (codes "Paul")) ≡ some (replaced (codes "01053"))
unfolding classify find_row find_row_in find_close same_tight tight closest_match verdict_on
    hits_among judge fall_back signed_insee is_elsewhere status_of compare_identity same_last_name
    other_sex sex_from_title strip_dot compare_first_names compare_words name_words split split_from
    starts_with text_eq least subset verdict_of worst_ratio norm expand_saints replace_word collapse
    trim trim_end trim_start single_spaces replace_separators replace_ligatures is_space
    is_separator starts_space starts_word is_word below drain find index_from index_of_b
    length_before longest_match matched over_total positions push_left push_right ratio search_rows
    store visit visit_all lookup insert places_of labels_of add_label label_of after_hyphen
    dept_codes department_of_insee includes
successor_test = refl

abbrev result : Result
result =
    or_else (cross_sources ascii (of_deputies ++ of_mayors) register [])
      (record { targets = []; kept = []; merged_spellings = 0; crossed = nothing_crossed })

result_test : cross_sources ascii (of_deputies ++ of_mayors) register [] ≡ some result
unfolding add_years cross_sources cross_targets check_tiers is_presented targets_of with_bonus cross
    settle add_stat stat_of classify find_row find_row_in find_close same_tight tight closest_match
    verdict_on hits_among judge fall_back signed_insee is_elsewhere status_of compare_identity
    same_last_name other_sex sex_from_title strip_dot compare_first_names compare_words name_words
    split split_from starts_with text_eq least subset verdict_of worst_ratio norm expand_saints
    replace_word collapse trim trim_end trim_start single_spaces replace_separators
    replace_ligatures is_space is_separator starts_space starts_word is_word below drain find
    index_from index_of_b length_before longest_match matched over_total positions push_left
    push_right ratio search_rows store visit visit_all lookup insert places_of labels_of add_label
    label_of after_hyphen dept_codes department_of_insee includes dedupe_by_insee file_rows file_row
    sort_by target_before file_endorsements file_endorsement file_mayor key_among key_beside
    person_key same_key sign tier_a tier_b tag_of decimal digits_from new_person
result_test = refl

cross_sources-accounts_example :
    (persons : List (Key × Person)) × (file_endorsements ascii (of_deputies ++ of_mayors) []
      ≡ some persons)
    × ((length result.kept + result.merged_spellings)
          + length result.crossed.former
          + length result.crossed.unmatched
        ≡ length (targets_of persons))
cross_sources-accounts_example =
    Accounts.cross_sources-accounts ascii (of_deputies ++ of_mayors) register [] result result_test
