-- ===== src/Messages/Templates/Inherit.antt =====
-- noyau/messages.ts: what a layer of templates overrides, and what it inherits.
use paraphe.Common.{
  Bool, true, false, not, Option, none, some, List, [], ◌∷◌, ◌++◌, Text, text_eq, text_eq_iff, ◌≡◌,
  refl, ap, sym, ◌∙◌, subst, if◌then◌else◌, Bool-cases, inl, inr, All,
}
use mathlib.Core.Option.{none-ne-some}
use paraphe.Csv.{Row, field}
use paraphe.Csv.Records.{field-assign}
use paraphe.Texte.Controls.{trim, is_nil}
use paraphe.Messages.Templates.{merge_entry, merge_layer, merge_templates}

-- No two entries have the same name.
unfoldable pub IsRecord : Row → Type 0
IsRecord [] = Unit {0}
IsRecord ((name, text) ∷ layer) = (field layer name ≡ none) × IsRecord layer

-- What a template becomes under a layer that has the entry.
abbrev pub over : Option Text → Option Text → Option Text
over none under = under
over (some text) under = if not (is_nil (trim text)) then some text else under

-- A layer has no text for the name, or a blank one.
unfoldable pub IsSilent : Text → Row → Type 0
IsSilent name layer = over (field layer name) none ≡ none

over-none : (said under : Option Text) → over said none ≡ none → over said under ≡ under
over-none none under h = refl
over-none (some text) under h = elim (Bool-cases (not (is_nil (trim text)))) [
  | inl e ↦
      absurd (none-ne-some text (sym (subst (λ b. (if b then some text else none) ≡ none) e h)))
  | inr e ↦ rw e refl
]

over-some :
    (text : Text) (under : Option Text)
    → is_nil (trim text) ≡ false
    → over (some text) under ≡ some text
over-some text under h = rw h refl

if_same : {A : Type 0} (b : Bool) (x : A) → (if b then x else x) ≡ x
if_same true x = refl
if_same false x = refl

field-merge_entry :
    (merged : Row) (name text key : Text)
    → field (merge_entry merged name text) key
      ≡ (if text_eq name key then over (some text) (field merged key) else field merged key)
unfolding merge_entry
field-merge_entry merged name text key = elim (Bool-cases (not (is_nil (trim text)))) [
  | inl e ↦ rw e (field-assign merged name key text)
  | inr e ↦ rw e (sym (if_same (text_eq name key) (field merged key)))
]

field-merge_layer :
    (layer merged : Row) (key : Text)
    → IsRecord layer
    → field (merge_layer merged layer) key ≡ over (field layer key) (field merged key)
unfolding merge_layer IsRecord field
field-merge_layer [] merged key h = refl
field-merge_layer ((name, text) ∷ layer) merged key (new, h) =
    elim (Bool-cases (text_eq name key)) [
      | inl e ↦
          let absent : field layer key ≡ none =
            subst (λ n. field layer n ≡ none) ((text_eq_iff name key).0 e) new in
          rw (field-merge_layer layer (merge_entry merged name text) key h, absent, e)
            (field-merge_entry merged name text key ∙ rw e refl)
      | inr e ↦
          let kept : field (merge_entry merged name text) key ≡ field merged key =
            field-merge_entry merged name text key ∙ rw e refl in
          rw (field-merge_layer layer (merge_entry merged name text) key h, kept, e) refl
    ]

-- A template of which no layer has a text, or only a blank one, is inherited from below the layers,
-- whatever they say of other names. The names of a layer are distinct.
field-merge_silent :
    (layers : List Row) (merged : Row) (key : Text)
    → All IsRecord layers
    → All (IsSilent key) layers
    → field (merge_templates merged layers) key ≡ field merged key
unfolding merge_templates IsSilent
field-merge_silent [] merged key _ _ = refl
field-merge_silent (layer ∷ layers) merged key (r, rs) (q, qs) =
    field-merge_silent layers (merge_layer merged layer) key rs qs
    ∙ (field-merge_layer layer merged key r ∙ over-none (field layer key) (field merged key) q)

-- A layer's text for a name, if it is not blank, replaces whatever is below it and is kept by the
-- layers above it that have no text for the name or a blank one. The names of a layer are distinct.
pub field-merge_templates :
    (before : List Row) (layer : Row) (after : List Row) (merged : Row) (key text : Text)
    → All IsRecord (before ++ layer ∷ after)
    → field layer key ≡ some text
    → is_nil (trim text) ≡ false
    → All (IsSilent key) after
    → field (merge_templates merged (before ++ layer ∷ after)) key ≡ some text
unfolding merge_templates
field-merge_templates [] layer after merged key text (r, rs) said full silent =
    field-merge_silent after (merge_layer merged layer) key rs silent
    ∙ (field-merge_layer layer merged key r
        ∙ (ap (λ o. over o (field merged key)) said ∙ over-some text (field merged key) full))
field-merge_templates (first ∷ before) layer after merged key text (r, rs) said full silent =
    field-merge_templates before layer after (merge_layer merged first) key text rs said full silent
