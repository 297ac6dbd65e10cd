-- ===== src/Tags.antt =====
-- packages/tag-anatomy/src: tags cut into tokens, segments read from the tokens, and family keys built by
-- templates.
pub mod Tokens
pub mod Separators
pub mod Whole
pub mod Extract
pub mod Template
pub mod Filled
pub mod Anatomy
mod Tests
