-- ===== src/Messages/Rank.antt =====
-- noyau/messages.ts: what is known of a mayor, and how they are named.
use paraphe.Common.{
  Bool, not, ◌&&◌, ◌||◌, Option, none, some, [], ◌++◌, Text, codes, text_eq, if◌then◌else◌, ◌>>=◌,
}
use paraphe.Csv.{Row, field}
use paraphe.Texte.Controls.{strip_controls, is_nil}
use paraphe.Texte.Norm.{strip_dot}
use paraphe.Texte.Unicode.{Unicode}
use paraphe.Messages.Words.{prose_name, readable_history}

-- `clean(mayor[key])`, where a column that is null or undefined is missing.
abbrev pub cleaned : Row → Text → Text
cleaned mayor key = strip_controls (field mayor key)

abbrev pub has_endorsed : Text
has_endorsed = codes "has_endorsed"

abbrev pub commune_has_endorsed : Text
commune_has_endorsed = codes "commune_has_endorsed"

abbrev pub no_signal : Text
no_signal = codes "no_signal"

unfoldable pub rank : Row → Text
unfolding field text_eq strip_controls
rank mayor =
    let r = cleaned mayor (codes "rank") in
    if is_nil r
    then has_endorsed
    else if text_eq r has_endorsed || text_eq r commune_has_endorsed || text_eq r no_signal
    then r
    else no_signal

abbrev pub title_of : Bool → Text
title_of woman = if woman then codes "Madame la Maire" else codes "Monsieur le Maire"

-- How `context` leads to the endorsements it cites.
unfoldable pub lead : Text → Bool → Text
lead who was_mayor =
    if not (is_nil who) && was_mayor
    then codes "sous la municipalité précédente : " ++ (who ++ codes " avait présenté ")
    else if not (is_nil who)
    then codes "par le passé : " ++ (who ++ codes ", élu de votre commune, a présenté ")
    else codes "par le passé : "

module _ (unicode : Unicode) where
  -- `none` is `MissingField`.
  unfoldable pub is_woman : Row → Option Bool
  unfolding field text_eq strip_controls strip_dot
  is_woman mayor =
      let civ = strip_dot (unicode.to_upper (cleaned mayor (codes "title"))) in
      if not (text_eq civ (codes "M")) && not (text_eq civ (codes "MME"))
      then none
      else some (text_eq civ (codes "MME"))

  unfoldable pub mayor_title : Row → Option Text
  unfolding is_woman
  mayor_title mayor = do woman ← is_woman mayor; some (title_of woman)

  unfoldable pub context : Row → Text
  unfolding rank field text_eq strip_controls readable_history prose_name lead
  context mayor =
      let cited = readable_history unicode (cleaned mayor (codes "endorsement_history")) in
      let who = prose_name unicode (cleaned mayor (codes "predecessor")) in
      let was_mayor = text_eq (cleaned mayor (codes "predecessor_mayor")) (codes "oui") in
      if not (text_eq (rank mayor) commune_has_endorsed)
      then []
      else if is_nil cited
      then []
      else codes "\nVotre commune a d'ailleurs déjà usé de cette possibilité "
        ++ (lead who was_mayor
            ++ (cited
                ++ (codes ". C'est ce précédent qui nous conduit à vous écrire à "
                    ++ codes "vous plutôt qu'à d'autres.\n")))
