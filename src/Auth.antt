-- ===== src/Auth.antt =====
-- Owners, sessions, tokens and the login: packages/kerdoos/src/kerdoos/registry/auth_store.py and
-- core/app/auth.py.
pub mod Store
pub mod Service
