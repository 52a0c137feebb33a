-- ===== src/Rate.antt =====
-- internal/api/middleware/rate_limiter.go: the token buckets of the visitors. The number of tokens
-- that a time earns, `int(elapsed.Seconds() * float64(rate) / 60.0)`, is floating-point arithmetic
-- and a parameter. Times are in nanoseconds.
pub mod Limiter
pub mod Endpoints
pub mod Bound
pub mod Tests
