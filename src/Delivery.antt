-- ===== src/Delivery.antt =====
-- Where outputs are put: CDNs and storage backends.
pub mod Cdn
pub mod Pushed
pub mod Storage
pub mod Tests
