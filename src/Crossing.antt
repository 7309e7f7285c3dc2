-- ===== src/Crossing.antt =====
-- outils/: the crossing of the three public sources into the list of mayors.
pub mod Entities
pub mod Identity
pub mod Dedupe
pub mod Sources
pub mod Directory
pub mod Persons
pub mod Match
pub mod Cross
pub mod Rows
pub mod Files
mod Examples
mod Samples
