-- ===== src/Digest.antt =====
-- packages/kerdoos/src/kerdoos/digest.
pub mod Texts
pub mod Prices
pub mod Render
pub mod View
pub mod Sender
pub mod Smtp
