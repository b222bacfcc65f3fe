-- ===== src/State.antt =====
-- The tables of packages/kerdoos/src/kerdoos/persistence/sqlite_store.py, as lists of rows. The
-- statements are read as SQLite runs them; each method is one transaction.
pub mod Scrapes
pub mod JobRuns
