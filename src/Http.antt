-- ===== src/Http.antt =====
-- The HTTP servers: of src/http only the rate limits of src/http/security.ts.
pub mod RateLimit
