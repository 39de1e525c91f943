-- ===== src/Fetcher.antt =====
-- services/novel-fetcher/internal/fetcher: the spacing of requests to one host.
pub mod RateLimiter
pub mod Spacing
