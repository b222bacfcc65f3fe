-- ===== src/Egress.antt =====
-- packages/autolycos/src/autolycos/safety.py and egress_proxy.py: the guard of every connection.
pub mod Texts
pub mod Safety
pub mod Proxy
