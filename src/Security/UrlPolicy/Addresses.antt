-- ===== src/Security/UrlPolicy/Addresses.antt =====
-- The blocked addresses of src/security/url-policy.ts: isBlockedIpv4, isBlockedIpv6,
-- embeddedIpv4Address, isBlockedIpv4Candidate and isBlockedAddress. A text is the list of its code
-- points; `is_ip`, which is isIP of Node's net module, is a parameter.
use Prim.Native.Char.{code}
use clideck_mcp.Prelude.{
  ℕ, zero, suc, ◌+◌, ◌-◌, ◌*◌, ◌/◌, ◌%◌, String, Bool, true, false, ◌&&◌, ◌||◌, Option, none, some,
  List, [], ◌∷◌, ◌++◌, map, leb, ◌==◌, if◌then◌else◌, all, any, length,
}

abbrev pub Text : Type 0
Text = List ℕ

abbrev pub text : String → Text
text String.[] = []
text (String.◌∷◌ c s) = code c ∷ text s

abbrev pub same_text : Text → Text → Bool
same_text [] [] = true
same_text [] (d ∷ t) = false
same_text (c ∷ s) [] = false
same_text (c ∷ s) (d ∷ t) = c == d && same_text s t

abbrev pub starts_with : Text → Text → Bool
starts_with [] s = true
starts_with (p ∷ ps) [] = false
starts_with (p ∷ ps) (c ∷ s) = p == c && starts_with ps s

abbrev pub lower : ℕ → ℕ
lower c = if leb b'A' c && leb c b'Z' then c + 32 else c

-- `s.split(sep)` for a separator of one character.
abbrev pub put : ℕ → List Text → List Text
put c [] = []
put c (p ∷ ps) = (c ∷ p) ∷ ps

abbrev pub cut : ℕ → ℕ → List Text → List Text
cut sep c parts = if c == sep then [] ∷ parts else put c parts

unfoldable pub split_on : ℕ → Text → List Text
split_on sep [] = [] ∷ []
split_on sep (c ∷ s) = cut sep c (split_on sep s)

abbrev pub is_digit : ℕ → Bool
is_digit c = leb b'0' c && leb c b'9'

unfoldable pub digits_from : ℕ → Text → ℕ
digits_from n [] = n
digits_from n (c ∷ s) = digits_from (n * 10 + (c - b'0')) s

-- `Number(s)` of a text of digits. The other texts that Number reads as a number are no part of an
-- address that isIP accepts; here they are not a number.
unfoldable pub number : Text → Option ℕ
unfolding digits_from
number s = if all is_digit s then some (digits_from 0 s) else none

-- `address.split('.').map(Number)`.
unfoldable pub octets : Text → List (Option ℕ)
unfolding split_on number
octets address = map number (split_on b'.' address)

-- `octets[0] ?? -1` and `octets[1] ?? -1`. No test of isBlockedIpv4 holds of -1 or of NaN.
abbrev pub first_of : List (Option ℕ) → Option ℕ
first_of [] = none
first_of (o ∷ os) = o

abbrev pub second_of : List (Option ℕ) → Option ℕ
second_of [] = none
second_of (o ∷ os) = first_of os

abbrev pub equals : Option ℕ → ℕ → Bool
equals none n = false
equals (some m) n = m == n

abbrev pub from : ℕ → Option ℕ → Bool
from n none = false
from n (some m) = leb n m

abbrev pub within : ℕ → ℕ → Option ℕ → Bool
within a b none = false
within a b (some m) = leb a m && leb m b

unfoldable pub is_blocked_octets : (first second : Option ℕ) → Bool
is_blocked_octets first second =
    equals first 0
    || equals first 10
    || equals first 127
    || (equals first 100 && within 64 127 second)
    || (equals first 169 && equals second 254)
    || (equals first 172 && within 16 31 second)
    || (equals first 192 && equals second 0)
    || (equals first 192 && equals second 168)
    || (equals first 198 && (equals second 18 || equals second 19))
    || from 224 first

-- isBlockedIpv4.
unfoldable pub is_blocked_ipv4 : Text → Bool
unfolding octets is_blocked_octets
is_blocked_ipv4 address =
    let parts = octets address in is_blocked_octets (first_of parts) (second_of parts)

-- A byte in decimal, and `[a, b, c, d].join('.')`.
unfoldable pub decimal : ℕ → Text
decimal n =
    if leb 100 n
    then (n / 100 + b'0') ∷ ((n / 10) % 10 + b'0') ∷ (n % 10 + b'0') ∷ []
    else if leb 10 n
    then (n / 10 + b'0') ∷ (n % 10 + b'0') ∷ []
    else (n + b'0') ∷ []

unfoldable pub dotted : (a b c d : ℕ) → Text
unfolding decimal
dotted a b c d = decimal a ++ b'.' ∷ (decimal b ++ b'.' ∷ (decimal c ++ b'.' ∷ decimal d))

module _ (is_ip : Text → ℕ) where
  abbrev pub is_byte : Option ℕ → Bool
  is_byte none = false
  is_byte (some n) = leb n 255

  -- isBlockedIpv4Candidate.
  abbrev pub is_blocked_ipv4_candidate : Text → Bool
  is_blocked_ipv4_candidate address = is_ip address == 4 && all is_byte (octets address)

  abbrev pub is_hex : ℕ → Bool
  is_hex c = is_digit c || (leb b'a' (lower c) && leb (lower c) b'f')

  abbrev hex_value : ℕ → ℕ
  hex_value c = if is_digit c then c - b'0' else lower c - 87

  abbrev hex_from : ℕ → Text → ℕ
  hex_from n [] = n
  hex_from n (c ∷ s) = hex_from (n * 16 + hex_value c) s

  abbrev or_zero : Option ℕ → ℕ
  or_zero none = 0
  or_zero (some n) = n

  -- `(a << 8) | b`, of bytes.
  abbrev pub dotted_words : List (Option ℕ) → List ℕ
  dotted_words (a ∷ b ∷ c ∷ d ∷ rest) =
      (or_zero a * 256 + or_zero b) ∷ (or_zero c * 256 + or_zero d) ∷ []
  dotted_words _ = 0 ∷ 0 ∷ []

  abbrev is_last : List Text → Bool
  is_last [] = true
  is_last (p ∷ ps) = false

  -- The words of one part, which may be dotted if it is the last.
  abbrev pub part_words : Text → Bool → Option (List ℕ)
  part_words part last =
      if any (λ c. c == b'.') part
      then (if last && is_blocked_ipv4_candidate part
          then some (dotted_words (octets part))
          else none)
      else if all is_hex part && leb 1 (length part) && leb (length part) 4
      then some (hex_from 0 part ∷ [])
      else none

  abbrev both : Option (List ℕ) → Option (List ℕ) → Option (List ℕ)
  both none q = none
  both (some ms) none = none
  both (some ms) (some ns) = some (ms ++ ns)

  abbrev pub parts_words : List Text → Option (List ℕ)
  parts_words [] = some []
  parts_words (p ∷ ps) = both (part_words p (is_last ps)) (parts_words ps)

  -- parseHalf.
  abbrev pub parse_half : Text → Option (List ℕ)
  parse_half [] = some []
  parse_half (c ∷ s) = parts_words (split_on b':' (c ∷ s))

  -- `address.split('::')`, after a colon that is not yet placed or none.
  abbrev pub split_double : Bool → Text → List Text
  split_double false [] = [] ∷ []
  split_double true [] = (b':' ∷ []) ∷ []
  split_double false (c ∷ s) = elim (c == b':') as (λ _. List Text) [
    | true ↦ split_double true s
    | false ↦ put c (split_double false s)
  ]
  split_double true (c ∷ s) = elim (c == b':') as (λ _. List Text) [
    | true ↦ [] ∷ split_double false s
    | false ↦ put b':' (put c (split_double false s))
  ]

  abbrev zeros : ℕ → List ℕ
  zeros zero = []
  zeros (suc n) = 0 ∷ zeros n

  -- The address of eight words: five zeros, then 0 or 0xffff, then the two words of an IPv4.
  abbrev pub embedded_words : List ℕ → Option Text
  embedded_words (a ∷ b ∷ c ∷ d ∷ e ∷ f ∷ high ∷ low ∷ []) =
      if all (λ w. w == 0) (a ∷ b ∷ c ∷ d ∷ e ∷ []) && (f == 0 || f == 65535)
      then some (dotted (high / 256) (high % 256) (low / 256) (low % 256))
      else none
  embedded_words _ = none

  abbrev pub fill_words : Bool → Option (List ℕ) → Option (List ℕ) → Option (List ℕ)
  fill_words compressed none right = none
  fill_words compressed (some left) none = none
  fill_words true (some left) (some right) =
      if leb 8 (length left + length right)
      then none
      else some (left ++ zeros (8 - (length left + length right)) ++ right)
  fill_words false (some left) (some right) =
      if length left == 8 then some (left ++ right) else none

  abbrev and_then : Option (List ℕ) → Option Text
  and_then none = none
  and_then (some words) = embedded_words words

  abbrev embedded_halves : List Text → Option Text
  embedded_halves (l ∷ []) = and_then (fill_words false (parse_half l) (parse_half []))
  embedded_halves (l ∷ r ∷ []) = and_then (fill_words true (parse_half l) (parse_half r))
  embedded_halves _ = none

  abbrev first_part : List Text → Text
  first_part [] = []
  first_part (p ∷ ps) = p

  -- embeddedIpv4Address.
  unfoldable pub embedded_ipv4_address : Text → Option Text
  unfolding split_on octets dotted
  embedded_ipv4_address address =
      embedded_halves (split_double false (first_part (split_on b'%' address)))

  -- isBlockedIpv6.
  abbrev pub blocked_prefixes : List Text
  blocked_prefixes =
      text "fc"
      ∷ text "fd"
      ∷ text "fe"
      ∷ text "ff"
      ∷ text "64:ff9b:"
      ∷ text "100:"
      ∷ text "2001:0:"
      ∷ text "2001:2:"
      ∷ text "2001:db8:"
      ∷ []

  abbrev pub blocked_unless_mapped : Text → Option Text → Bool
  blocked_unless_mapped normalized (some mapped) = is_blocked_ipv4 mapped
  blocked_unless_mapped normalized none =
      same_text normalized (text "::")
      || same_text normalized (text "::1")
      || any (λ p. starts_with p normalized) blocked_prefixes

  abbrev pub is_blocked_ipv6 : Text → Bool
  is_blocked_ipv6 address =
      let normalized = map lower address in
      blocked_unless_mapped normalized (embedded_ipv4_address normalized)

  -- isBlockedAddress.
  unfoldable pub is_blocked_address : Text → Bool
  unfolding embedded_ipv4_address is_blocked_ipv4
  is_blocked_address address =
      let family = is_ip address in
      if family == 4
      then is_blocked_ipv4 address
      else if family == 6
      then is_blocked_ipv6 address
      else true
