-- ===== src/Messages.antt =====
-- noyau/messages.ts: the engine that writes the messages to the mayors.
pub mod Render
pub mod Words
pub mod Commune
pub mod Rank
pub mod Fields
pub mod Engine
pub mod Unfilled
pub mod Refusal
pub mod Templates
pub mod Address
mod Examples
