-- ===== src/Fetching.antt =====
-- packages/autolycos/src/autolycos: browser_gate.py, router.py and tiers.py.
pub mod Gate
pub mod Router
pub mod Tiers
pub mod Challenge
pub mod Hops
pub mod Browser
