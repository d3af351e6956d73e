-- ===== src/Security/UrlPolicy/Lookups.antt =====
-- What safePublicLookup of src/security/url-policy.ts lets a request connect to.
use clideck_mcp.Prelude.{
  ℕ, ◌<◌, Bool, true, false, ◌||◌, some, List, [], ◌∷◌, ◌≡◌, sym, ◌∙◌, inl, inr, arith, any, length,
  ◌==◌, Bool-cases,
}
use mathlib.Core.Path.{subst}
use clideck_mcp.Prelude.Table.{In}
use clideck_mcp.Security.UrlPolicy.Addresses.{Text, is_blocked_ipv4, is_blocked_address, dotted}
use clideck_mcp.Security.UrlPolicy.Networks.{
  contains, address_value, blocked_networks, is_blocked_ipv4-networks,
}
use clideck_mcp.Security.UrlPolicy.Probe.{resolved, blocked, first_address, safe_public_lookup}

any-In :
    (test : Text → Bool) (texts : List Text) (t : Text)
    → any test texts ≡ false
    → In t texts
    → test t ≡ false
any-In test [] t h i = absurd i
any-In test (s ∷ texts) t h (inl e) = subst (λ x. test x ≡ false) e (ground arith)
any-In test (s ∷ texts) t h (inr i) = any-In test texts t (ground arith) i

resolved_inj : {s t : List Text} → resolved s ≡ resolved t → s ≡ t
resolved_inj h = cc

handed_on :
    (all : Bool) (addresses given : List Text) (t : Text)
    → first_address all addresses ≡ resolved given
    → In t given
    → In t addresses
handed_on true addresses given t e i = rw (resolved_inj e) i
handed_on false [] given t e i = absurd (let no_address : blocked ≡ resolved given = e in cc)
handed_on false (a ∷ addresses) given t e i =
    let head : In t (a ∷ []) = subst (In t) (sym (resolved_inj e)) i in
    elim head [ inl same ↦ inl same | inr none_left ↦ absurd none_left ]

module _ (is_ip : Text → ℕ) where
  free_ipv4 :
      (t : Text) → is_ip t ≡ 4 → is_blocked_address is_ip t ≡ false → is_blocked_ipv4 t ≡ false
  unfolding is_blocked_address
  free_ipv4 t family free = rw family at free

  -- Whatever the DNS answers for a host: an IPv4 address that safePublicLookup hands to the request
  -- lies in none of the blocked networks. The address is the text of its four bytes in decimal, and
  -- isIP knows it as an IPv4 address.
  pub lookup-outside :
      (all : Bool) (addresses given : List Text) (a b c d : ℕ)
      → a < 256
      → b < 256
      → c < 256
      → d < 256
      → is_ip (dotted a b c d) ≡ 4
      → safe_public_lookup is_ip all (some addresses) ≡ resolved given
      → In (dotted a b c d) given
      → any (contains (address_value a b c d)) blocked_networks ≡ false
  unfolding safe_public_lookup is_blocked_address
  lookup-outside all addresses given a b c d p q r s family h i =
      elim (Bool-cases (length addresses == 0 || any (is_blocked_address is_ip) addresses)) [
        | inl bad ↦ absurd (let no_address : blocked ≡ resolved given = rw bad at h in cc)
        | inr good ↦
            let free =
              any-In (is_blocked_address is_ip) addresses (dotted a b c d) (ground arith)
                (handed_on all addresses given (dotted a b c d) (rw good at h) i) in
            sym (is_blocked_ipv4-networks a b c d p q r s) ∙ free_ipv4 (dotted a b c d) family free
      ]
