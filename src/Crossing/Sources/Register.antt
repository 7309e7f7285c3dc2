-- ===== src/Crossing/Sources/Register.antt =====
-- outils/sources.ts: the mayors of the register, by department.
use paraphe.Common.{
  Bool, some, List, [], ◌∷◌, ◌++◌, map, Text, text_eq, text_eq_iff, if◌then◌else◌, or_else, keep,
  drop, lookup, lookup-insert, passed-some, append-nil, append_assoc, ◌≡◌, refl, sym, ap, ◌∙◌, inl,
  inr, Bool-cases,
}
use mathlib.Core.Option.{some-injective}
use paraphe.Csv.{parse_rows}
use paraphe.Texte.Unicode.{Unicode}
use paraphe.Texte.Controls.{is_nil}
use paraphe.Texte.Norm.{norm, collapse}
use paraphe.Crossing.Entities.{Official}
use paraphe.Crossing.Sources.{Rne, cell, enter, enter_all, official_of, read_rne}

-- Those listed under a department.
abbrev pub people : List (Text × List Official) → Text → List Official
people m d = or_else (lookup text_eq m d) []

module _ (unicode : Unicode) where
  -- The line is of the department: its second cell says so, or the fourth where the second is empty.
  abbrev pub is_of : Text → List Text → Bool
  is_of d r =
      let dept = collapse (cell r 1) in
      text_eq (norm unicode (if is_nil dept then collapse (cell r 3) else dept)) d

  -- The officials of the lines of a department, in their order.
  abbrev pub of_department : Text → List (List Text) → List Official
  of_department d rows = map (official_of unicode) (keep (is_of d) rows)

  people-enter :
      (o : Official) (rne : Rne) (d : Text)
      → people (enter unicode o rne).by_person d
        ≡ people rne.by_person d ++ (if text_eq (norm unicode o.dept) d then o ∷ [] else [])
  unfolding enter
  people-enter o rne d =
      let e = norm unicode o.dept in
      ap (λ l. or_else l [])
        (lookup-insert text_eq text_eq_iff rne.by_person e d (people rne.by_person e ++ o ∷ []))
      ∙ elim (Bool-cases (text_eq e d)) [
        | inl q ↦ rw q (ap (λ k. people rne.by_person k ++ o ∷ []) ((text_eq_iff e d).0 q))
        | inr q ↦ rw q (sym (append-nil (people rne.by_person d)))
      ]

  keep-if :
      (d : Text) (r : List Text) (rows : List (List Text))
      → (if is_of d r then official_of unicode r ∷ [] else []) ++ of_department d rows
        ≡ of_department d (r ∷ rows)
  keep-if d r rows = elim (Bool-cases (is_of d r)) [
    | inl q ↦ rw (q, keep) refl
    | inr q ↦ rw (q, keep) refl
  ]

  people-enter_all :
      (rows : List (List Text)) (rne : Rne) (d : Text)
      → people (enter_all unicode rows rne).by_person d
        ≡ people rne.by_person d ++ of_department d rows
  unfolding enter_all official_of
  people-enter_all [] rne d = sym (append-nil (people rne.by_person d))
  people-enter_all (r ∷ rows) rne d =
      let o = official_of unicode r in
      let one : List Official = if is_of d r then o ∷ [] else [] in
      people-enter_all rows (enter unicode o rne) d
      ∙ (ap (λ ps. ps ++ of_department d rows) (people-enter o rne d)
          ∙ (append_assoc (people rne.by_person d) one (of_department d rows)
              ∙ ap (λ ps. people rne.by_person d ++ ps) (keep-if d r rows)))

  -- If `loadRne` passes the test of the header, the officials that it lists under a department are
  -- those of the lines after the first whose department is this one, all of them, in the order of
  -- the file.
  pub people-read_rne :
      (file : Text) (rne : Rne) (d : Text)
      → read_rne unicode file ≡ some rne
      → people rne.by_person d ≡ of_department d (drop 1 (parse_rows file b';'))
  unfolding read_rne lookup
  people-read_rne file rne d h =
      let start : Rne = record { by_commune = []; by_person = [] } in
      let entered = enter_all unicode (drop 1 (parse_rows file b';')) start in
      ap (λ (x : Rne). people x.by_person d)
        (sym (some-injective entered rne (passed-some _ (some entered) rne h)))
      ∙ people-enter_all (drop 1 (parse_rows file b';')) start d
