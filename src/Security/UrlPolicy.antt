-- ===== src/Security/UrlPolicy.antt =====
-- The policy on URLs of src/security/url-policy.ts: addresses that are blocked (Addresses), and the
-- probe of a source's URL (Probe).
pub mod Addresses
pub mod Networks
pub mod Probe
pub mod Requests
pub mod Lookups
mod Tests
