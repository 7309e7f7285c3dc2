-- ===== src/Messages/Templates.antt =====
-- noyau/messages.ts: `mergeTemplates`, the templates of an image, of its campaign and of a team.
pub mod Inherit
use paraphe.Common.{Bool, true, false, not, List, [], ◌∷◌, Text, if◌then◌else◌}
use paraphe.Csv.{Row, assign}
use paraphe.Texte.Controls.{trim, is_nil}

-- One entry of a layer: `if (text.trim() !== "") merged[name] = text;`
unfoldable pub merge_entry : Row → Text → Text → Row
unfolding assign
merge_entry merged name text = if not (is_nil (trim text)) then assign merged name text else merged

-- A layer that is null or undefined is empty, and so is an entry that is no text.
unfoldable pub merge_layer : Row → Row → Row
merge_layer merged [] = merged
merge_layer merged ((name, text) ∷ layer) = merge_layer (merge_entry merged name text) layer

unfoldable pub merge_templates : Row → List Row → Row
merge_templates merged [] = merged
merge_templates merged (layer ∷ layers) = merge_templates (merge_layer merged layer) layers
