-- ===== src/Scrape.antt =====
-- The scrape pipeline: core/domain.py, autolycos ports.py, core/retry.py, core/verdict.py and
-- core/orchestrator.py of packages/. The children define it and prove its laws.
pub mod Domain
pub mod Retry
pub mod Verdict
pub mod Orchestrator
