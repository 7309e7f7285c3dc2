-- ===== src/Texte.antt =====
-- noyau/texte.ts: normalisation and comparison of texts.
pub mod Difflib
pub mod Controls
pub mod Unicode
pub mod Norm
pub mod Ascii
