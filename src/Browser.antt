-- ===== src/Browser.antt =====
-- The parts of src/andera/browser that stand before the drivers.
pub mod RateLimiter
pub mod Pool
