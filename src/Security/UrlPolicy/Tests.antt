-- ===== src/Security/UrlPolicy/Tests.antt =====
-- Runs of the policy of src/security/url-policy.ts, with an isIP, a parser and a network of their own.
use clideck_mcp.Prelude.{
  ℕ, ◌&&◌, Bool, true, false, Option, none, some, [], ◌∷◌, ◌≡◌, refl, inl, arith, any, length, ◌==◌,
  if◌then◌else◌, all,
}
use clideck_mcp.Security.UrlPolicy.Addresses.{
  Text, text, same_text, octets, is_blocked_ipv4, is_blocked_address, dotted,
}
use clideck_mcp.Security.UrlPolicy.Networks.{
  address_value, contains, blocked_networks, is_blocked_ipv4-networks,
}
use clideck_mcp.Security.UrlPolicy.Probe.{
  Url, Reply, replied, lookup_blocked, PublicSourceProbe, safe_public_lookup,
  probe_public_source_url, unsafe_provenance_url,
}
use clideck_mcp.Security.UrlPolicy.Requests.{IsProbe, probe_public_source_url-IsProbe}
use clideck_mcp.Security.UrlPolicy.Lookups.{lookup-outside}

abbrev is_number : Option ℕ → Bool
is_number none = false
is_number (some n) = true

abbrev net_is_ip : Text → ℕ
net_is_ip t =
    if length (octets t) == 4 && all is_number (octets t)
    then 4
    else if any (λ c. c == b':') t
    then 6
    else 0

private_is_blocked : is_blocked_address net_is_ip (text "192.168.1.7") ≡ true
unfolding is_blocked_address
private_is_blocked = refl

public_is_free : is_blocked_address net_is_ip (text "93.184.216.34") ≡ false
unfolding is_blocked_address
public_is_free = refl

mapped_is_blocked : is_blocked_address net_is_ip (text "::ffff:7f00:1") ≡ true
unfolding is_blocked_address
mapped_is_blocked = refl

mapped_is_free : is_blocked_address net_is_ip (text "::FFFF:93.184.216.34") ≡ false
unfolding is_blocked_address
mapped_is_free = refl

documentation_is_blocked : is_blocked_address net_is_ip (text "2001:db8::1") ≡ true
unfolding is_blocked_address
documentation_is_blocked = refl

is_blocked_ipv4-networks_example :
    is_blocked_ipv4 (dotted 100 64 3 9) ≡ any (contains (address_value 100 64 3 9)) blocked_networks
is_blocked_ipv4-networks_example =
    is_blocked_ipv4-networks 100 64 3 9 (omega arith) (omega arith) (omega arith) (omega arith)

lookup-outside_example : any (contains (address_value 93 184 216 34)) blocked_networks ≡ false
unfolding safe_public_lookup dotted octets
lookup-outside_example =
    lookup-outside net_is_ip true (dotted 93 184 216 34 ∷ []) (dotted 93 184 216 34 ∷ []) 93 184 216
      34 (omega arith) (omega arith) (omega arith) (omega arith) refl refl (inl refl)

-- A document that has moved, and its new place.
abbrev first_url : Text
first_url = text "https://docs.example.com/old"

abbrev second_url : Text
second_url = text "https://docs.example.com/new#top"

abbrev parse_url : Text → Option Url
parse_url t =
    if same_text t first_url
    then some (record {
      protocol = text "https:";
      username = [];
      password = [];
      port = [];
      hostname = text "docs.example.com";
    })
    else if same_text t second_url
    then some (record {
      protocol = text "https:";
      username = [];
      password = [];
      port = text "443";
      hostname = text "docs.example.com";
    })
    else none

abbrev before_hash : Text → Text
before_hash [] = []
before_hash (c ∷ s) = let rest = before_hash s in if c == b'#' then [] else c ∷ rest

abbrev resolve_url : (location base : Text) → Option Text
resolve_url location base = some location

abbrev network : ℕ → Text → Reply
network n url =
    if same_text url first_url
    then replied (record { status = 301; location = some second_url; content_type = none })
    else replied (record {
      status = 206;
      location = none;
      content_type = some (text " Text/HTML ; charset=utf-8");
    })

moved_document :
    probe_public_source_url net_is_ip parse_url before_hash resolve_url network first_url ≡ (
      PublicSourceProbe.ok (text "https://docs.example.com/new") (text "text/html"),
      first_url ∷ second_url ∷ [],
    )
unfolding probe_public_source_url
moved_document = refl

-- A server that answers every request by a redirect to itself is asked six times.
abbrev circle : ℕ → Text → Reply
circle n url = replied (record { status = 302; location = some first_url; content_type = none })

redirect_circle :
    length (probe_public_source_url net_is_ip parse_url before_hash resolve_url circle first_url).1
    ≡ 6
unfolding probe_public_source_url
redirect_circle = refl

probe_public_source_url-IsProbe_example :
    IsProbe net_is_ip parse_url before_hash resolve_url network 6
      (probe_public_source_url net_is_ip parse_url before_hash resolve_url network first_url)
probe_public_source_url-IsProbe_example =
    probe_public_source_url-IsProbe net_is_ip parse_url before_hash resolve_url network first_url

-- A network whose lookups find private addresses only.
abbrev private_network : ℕ → Text → Reply
private_network n url = lookup_blocked

blocked_lookup :
    probe_public_source_url net_is_ip parse_url before_hash resolve_url private_network first_url
    ≡ (PublicSourceProbe.failed unsafe_provenance_url false, first_url ∷ [])
unfolding probe_public_source_url
blocked_lookup = refl
