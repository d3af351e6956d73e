-- ===== src/Security.antt =====
-- The security rules: of src/security the policy on the URLs of public sources.
pub mod UrlPolicy
