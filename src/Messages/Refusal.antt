-- ===== src/Messages/Refusal.antt =====
-- noyau/messages.ts: `placeholderNames` and `invalidTemplate`, which tries a set of templates on a
-- mayor who does not exist.
pub mod Promise
mod Examples
use paraphe.Common.{
  Bool, true, false, ◌||◌, Option, none, some, List, [], ◌∷◌, ◌++◌, map, Text, codes, includes,
  if◌then◌else◌, ◌>>=◌, sort_by,
}
use paraphe.Csv.{Row}
use paraphe.Texte.Unicode.{Unicode}
use paraphe.Messages.Words.{text_lt}
use paraphe.Messages.Rank.{has_endorsed, no_signal}
use paraphe.Messages.Fields.{Today, Options, fields}
use paraphe.Messages.Engine.{
  Attempt, done, missing_field, invalid_template, letter, phone_script, email,
}
use paraphe.Messages.Unfilled.{campaign_keys}

-- `Object.keys`
abbrev pub keys : Row → List Text
keys = map (λ (k, v). k)

-- The options when none are given, at the time `today`.
abbrev pub no_options : Today → Options
no_options today = record {
  signer = none;
  personal_note = none;
  phone_outreach = false;
  today = today;
}

abbrev pub is_invalid : {A : Type 0} → Attempt A → Bool
is_invalid (done a) = false
is_invalid missing_field = false
is_invalid invalid_template = true

-- `sample` of `placeholderNames`
abbrev named_sample : Text → Row
named_sample file =
    (codes "rank", (if includes file (codes "_decouverte") then no_signal else has_endorsed))
    ∷ (codes "title", codes "M.")
    ∷ (codes "first_name", codes "x")
    ∷ (codes "last_name", codes "x")
    ∷ (codes "commune", codes "x")
    ∷ (codes "recent_candidate", codes "x")
    ∷ (codes "recent_year", codes "2022")
    ∷ []

-- `{ ...sample, rank }` of `invalidTemplate`
unfoldable pub sample_mayor : Text → Row
sample_mayor rank =
    (codes "title", codes "Mme")
    ∷ (codes "first_name", codes "Prénom")
    ∷ (codes "last_name", codes "NOM")
    ∷ (codes "commune", codes "Commune")
    ∷ (codes "department", codes "Département")
    ∷ (codes "insee_code", codes "00000")
    ∷ (codes "recent_candidate", codes "Candidat")
    ∷ (codes "recent_year", codes "2022")
    ∷ (codes "endorsement_history", codes "2022: NOM Candidat (A)")
    ∷ (codes "predecessor", codes "Prédécesseur NOM")
    ∷ (codes "predecessor_mayor", codes "oui")
    ∷ (codes "rank", rank)
    ∷ []

-- `cfg` of `invalidTemplate`
unfoldable pub sample_campaign : Row
sample_campaign = map (λ k. (k, codes "valeur de " ++ k)) campaign_keys

module _ (unicode : Unicode) (today : Today) where
  -- `placeholderNames`; `none` is `MissingField`.
  unfoldable pub placeholder_names : Text → Option (List Text)
  placeholder_names file = do
    ch ← fields unicode (named_sample file) (map (λ k. (k, [])) campaign_keys) (no_options today)
    some (sort_by text_lt (keys ch))

  -- A round of the outer loop: whether one of the channels refuses a template.
  unfoldable pub refused_at : Row → Text → Bool
  refused_at templates rank =
      is_invalid (email unicode templates (sample_mayor rank) sample_campaign (no_options today))
      || is_invalid
          (letter unicode templates (sample_mayor rank) sample_campaign (no_options today))
      || is_invalid
          (phone_script unicode templates (sample_mayor rank) sample_campaign (no_options today))

  -- `invalidTemplate`, whether it answers with a message.
  unfoldable pub is_refused : Row → Bool
  is_refused templates = refused_at templates has_endorsed || refused_at templates no_signal
