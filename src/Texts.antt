-- ===== src/Texts.antt =====
-- utils/text/: text as it streams from a model, cut into the units that are spoken.
pub mod Tags
pub mod Simple
pub mod SkipTags
pub mod Concatenate
