-- ===== src/ConfigStore.antt =====
-- packages/kerdoos/src/kerdoos/registry/sqlite_store.py: the tables of config.db as lists of rows,
-- with their keys and foreign keys, and each method as a function of them. A method that raises is
-- rolled back. `json` text is read back as it was written, so options are kept as values.
pub mod Tables
pub mod Operations
pub mod Integrity
pub mod Tenancy
pub mod Catalogue
pub mod Owners
