-- ===== src/Crossing/Rows/Ranks.antt =====
-- outils/build.ts and noyau/messages.ts: the rank of a mayor in file 04, and what may be said to
-- them.
use paraphe.Common.{
  Bool, true, false, ◌||◌, Option, none, some, List, [], ◌∷◌, Text, codes, text_eq, text_eq_iff,
  any, lookup, insert, lookup-insert, ◌≡◌, ◌↔◌, refl, sym, ◌∙◌, arith,
}
use paraphe.Csv.{Row, field}
use paraphe.Texte.Difflib.{find}
use paraphe.Texte.Unicode.{Unicode}
use paraphe.Texte.Controls.{
  trim, strip_controls, squeeze, decode_all, decode, is_control, is_space, starts_space, trim_start,
  trim_end,
}
use paraphe.Messages.Rank.{rank, has_endorsed}
use paraphe.Messages.Fields.{Options}
use paraphe.Messages.Engine.{done, letter, phone_script, email, Email}
use paraphe.Messages.Render.Printed.{printed}
use paraphe.Messages.Engine.Subject.{printed_mail}
use paraphe.Messages.Engine.Discovery.{IsDiscovery, message-IsDiscovery}
use paraphe.Crossing.Entities.{Official, Contact, Person, Target}
use paraphe.Crossing.Dedupe.Codes.{has_code}
use paraphe.Crossing.Rows.{targets_by_insee, signal_of, base_row}

not_both : {b : Bool} → b ≡ true → b ≡ false → ⊥
not_both p q = cc

abbrev is_known : Option Target → Bool
is_known none = false
is_known (some t) = true

targets_by_insee-is_known :
    (kept : List Target) (m : List (Text × Target)) (k : Text)
    → is_known (lookup text_eq (targets_by_insee kept m) k)
      ≡ any (has_code k) kept || is_known (lookup text_eq m k)
unfolding targets_by_insee
targets_by_insee-is_known [] m k = refl
targets_by_insee-is_known (r ∷ kept) m k = ground (
  arith,
  targets_by_insee-is_known kept (insert text_eq m r.rne.insee r) k,
  lookup-insert text_eq text_eq_iff m r.rne.insee k r,
)

signal-rank :
    (target : Option Target) (past : Option Person) (rest : Row)
    → text_eq (rank ((codes "rank", (signal_of target past).rank_key) ∷ rest)) has_endorsed
      ≡ is_known target
unfolding signal_of rank field text_eq strip_controls trim squeeze decode_all decode is_control
    is_space starts_space trim_start trim_end find
signal-rank (some t) past rest = refl
signal-rank none (some p) rest = refl
signal-rank none none rest = refl

module _ (unicode : Unicode) (contacts : List (Text × Contact)) (kept : List Target)
    (past : List (Text × Person)) (row : Official) where
  -- The row of an official in file 04, with the targets that were kept.
  abbrev pub row_of : Row
  row_of = base_row unicode contacts (targets_by_insee kept []) past row

  rank_known : text_eq (rank row_of) has_endorsed ≡ any (has_code row.insee) kept
  unfolding base_row lookup
  rank_known =
      let target = lookup text_eq (targets_by_insee kept []) row.insee in
      let same = targets_by_insee-is_known kept [] row.insee in
      signal-rank target (lookup text_eq past row.insee) _ ∙ (ground (arith, same))

  -- A mayor has the rank of an endorser in file 04 exactly if one of the targets that were kept has
  -- the INSEE code of their commune.
  pub base_row-has_endorsed : (rank row_of ≡ has_endorsed) ↔ (any (has_code row.insee) kept ≡ true)
  base_row-has_endorsed = (
    λ e. sym rank_known ∙ (text_eq_iff (rank row_of) has_endorsed).1 e,
    λ e. (text_eq_iff (rank row_of) has_endorsed).0 (rank_known ∙ e),
  )

  -- From the crossing to the letter: for a mayor of file 04 whose INSEE code is that of no target,
  -- what a letter, a telephone script or an email says, white space and dashes apart, is the template
  -- for mayors without an endorsement, filled with the fields of the mayor, and that template has no
  -- placeholder that thanks for one.
  pub base_row-IsDiscovery :
      (templates cfg : Row) (opts : Options)
      → any (has_code row.insee) kept ≡ false
      → ((text : Text)
          → letter unicode templates row_of cfg opts ≡ done text
          → IsDiscovery unicode templates row_of cfg opts (codes "courrier") (printed text))
        × ((text : Text)
            → phone_script unicode templates row_of cfg opts ≡ done text
            → IsDiscovery unicode templates row_of cfg opts (codes "telephone") (printed text))
        × ((mail : Email)
            → email unicode templates row_of cfg opts ≡ done mail
            → IsDiscovery unicode templates row_of cfg opts (codes "email") (printed_mail mail))
  base_row-IsDiscovery templates cfg opts h =
      message-IsDiscovery unicode templates row_of cfg opts
        (λ e. not_both (base_row-has_endorsed.0 e) h)
