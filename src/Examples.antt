-- ===== src/Examples.antt =====
-- The main theorems at concrete inputs.
mod Data
mod Scraping
mod Storing
mod Evaluating
mod Queueing
mod Signing
mod Configuring
mod Serving
mod Guarding
mod Mailing
mod Visiting
