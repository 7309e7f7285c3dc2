-- ===== src/Messages/Render/Pieces.antt =====
-- noyau/messages.ts: the placeholders that `render` finds in a template.
use paraphe.Common.{
  ℕ, false, Option, none, some, List, [], ◌∷◌, ◌++◌, Text, ◌==◌, ◌≡◌, refl, ap, sym, ◌∙◌, Lacks,
  append-nil, append_assoc, subst, bind-some,
}
use mathlib.Core.Option.{some-injective}
use paraphe.Csv.{Row, field}
use paraphe.Texte.Controls.{trim, is_nil}
use paraphe.Messages.Render.{
  Piece, verbatim, placeholder, opening, closing, read_brace, read_pieces, substitute, render,
}

-- `{raw}` and what follows it.
abbrev pub braced : Text → Text → Text
braced raw post = opening ∷ raw ++ closing ∷ post

-- What is inside the braces of a placeholder.
pub record IsKey (raw : Text) : Type 0 where
  pub not_nil : is_nil raw ≡ false
  pub no_opening : Lacks opening raw
  pub no_closing : Lacks closing raw

read_pieces-append :
    (pending : Option Text) (pre t : Text)
    → (ps : List Piece) × (pending' : Option Text) × (read_pieces pending (pre ++ t)
        ≡ ps ++ read_pieces pending' t)
unfolding read_pieces
read_pieces-append pending [] t = ([], pending, refl)
read_pieces-append pending (c ∷ pre) t =
    let (ps, pending', e) = read_pieces-append (read_brace pending c).1 pre t in
    (
      (read_brace pending c).0 ++ ps,
      pending',
      ap (◌++◌ (read_brace pending c).0) e
          ∙ sym (append_assoc (read_brace pending c).0 ps (read_pieces pending' t)),
    )

read_brace-opening :
    (pending : Option Text) → (ps : List Piece) × (read_brace pending opening ≡ (ps, some []))
unfolding read_brace
read_brace-opening none = ([], refl)
read_brace-opening (some raw) = (_, refl)

read_brace-plain :
    (raw : Text) (c : ℕ)
    → c == opening ≡ false
    → c == closing ≡ false
    → read_brace (some raw) c ≡ ([], some (raw ++ c ∷ []))
unfolding read_brace
read_brace-plain raw c p q = rw (p, q) refl

read_brace-closing :
    (raw : Text) → is_nil raw ≡ false → read_brace (some raw) closing ≡ (placeholder raw ∷ [], none)
unfolding read_brace
read_brace-closing raw h = rw h refl

read_pieces-raw :
    (before raw post : Text)
    → Lacks opening raw
    → Lacks closing raw
    → is_nil (before ++ raw) ≡ false
    → read_pieces (some before) (raw ++ closing ∷ post)
      ≡ placeholder (before ++ raw) ∷ read_pieces none post
unfolding read_pieces
read_pieces-raw before [] post p q h =
    let e : before ++ [] ≡ before = append-nil before in
    let h' : is_nil before ≡ false = subst (λ t. is_nil t ≡ false) e h in
    rw (e, read_brace-closing before h') refl
read_pieces-raw before (c ∷ raw) post (p, ps) (q, qs) h =
    let e : (before ++ c ∷ []) ++ raw ≡ before ++ c ∷ raw = append_assoc before (c ∷ []) raw in
    rw (read_brace-plain before c p q, sym e)
      (read_pieces-raw (before ++ c ∷ []) raw post ps qs (subst (λ t. is_nil t ≡ false) (sym e) h))

-- The scan finds every placeholder of the template.
read_pieces-braced :
    (pre raw post : Text)
    → IsKey raw
    → (ps : List Piece) × (read_pieces none (pre ++ braced raw post)
        ≡ ps ++ placeholder raw ∷ read_pieces none post)
unfolding read_pieces
read_pieces-braced pre raw post key =
    let (ps, pending, e) = read_pieces-append none pre (braced raw post) in
    let (ps', e') = read_brace-opening pending in
    (
      ps ++ ps',
      e
          ∙ rw (e', read_pieces-raw [] raw post key.no_opening key.no_closing key.not_nil)
              (sym (append_assoc ps ps' (placeholder raw ∷ read_pieces none post))),
    )

substitute-known :
    (ch : Row) (ps : List Piece) (raw : Text) (rest : List Piece) (text : Text)
    → substitute ch (ps ++ placeholder raw ∷ rest) ≡ some text
    → (value : Text) × (field ch (trim raw) ≡ some value)
unfolding substitute
substitute-known ch [] raw rest text h =
    let (value, e, _) = bind-some (field ch (trim raw)) _ text h in (value, e)
substitute-known ch (verbatim c ∷ ps) raw rest text h =
    let (text', e, _) = bind-some (substitute ch (ps ++ placeholder raw ∷ rest)) _ text h in
    substitute-known ch ps raw rest text' e
substitute-known ch (placeholder raw' ∷ ps) raw rest text h =
    let (value, _, h') = bind-some (field ch (trim raw')) _ text h in
    let (text', e, _) = bind-some (substitute ch (ps ++ placeholder raw ∷ rest)) _ text h' in
    substitute-known ch ps raw rest text' e

-- `render` ships no hole: if it returns a text, then the fields have a value for the trimmed text
-- of every pair of braces that stands anywhere in the template with something and no brace inside.
pub render-braced :
    (templates ch : Row) (name pre raw post text : Text)
    → IsKey raw
    → field templates name ≡ some (pre ++ braced raw post)
    → render templates name ch ≡ some text
    → (value : Text) × (field ch (trim raw) ≡ some value)
unfolding render
render-braced templates ch name pre raw post text key present h =
    let (ps, e) = read_pieces-braced pre raw post key in
    let (template, t, h') = bind-some (field templates name) _ text h in
    let same : template ≡ pre ++ braced raw post =
      some-injective template (pre ++ braced raw post) (sym t ∙ present) in
    let (filled, f, _) = bind-some (substitute ch (read_pieces none template)) _ text h' in
    substitute-known ch ps raw (read_pieces none post) filled
      (ap (substitute ch) (sym (ap (read_pieces none) same ∙ e)) ∙ f)
