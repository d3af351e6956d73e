-- ===== src/Security/UrlPolicy/Networks.antt =====
-- isBlockedIpv4 of src/security/url-policy.ts against the list of the networks it is meant to block.
use clideck_mcp.Prelude.{
  ℕ, ◌+◌, ◌-◌, ◌*◌, ◌/◌, ◌%◌, ◌^◌, ◌<◌, Bool, true, false, ◌&&◌, ◌||◌, some, List, [], ◌∷◌, ◌++◌,
  ◌≡◌, refl, arith, leb, ◌==◌, all, any, inl, inr, Bool-cases,
}
use clideck_mcp.Security.UrlPolicy.Addresses.{
  Text, split_on, is_digit, digits_from, number, octets, within, is_blocked_octets, is_blocked_ipv4,
  decimal, dotted,
}

-- A network: its address as a number, and the length of its prefix.
pub record Network : Type 0 where
  pub address : ℕ
  pub prefix : ℕ

abbrev pub address_value : (a b c d : ℕ) → ℕ
address_value a b c d = a * 16777216 + b * 65536 + c * 256 + d

abbrev network : (a b prefix : ℕ) → Network
network a b prefix = record { address = address_value a b 0 0; prefix = prefix }

-- The address has the network's prefix.
abbrev pub contains : ℕ → Network → Bool
contains address n = address / 2 ^ (32 - n.prefix) == n.address / 2 ^ (32 - n.prefix)

-- This network, private use, loopback, shared space, link local, private use, protocol assignments,
-- private use, benchmarking, and multicast with the reserved space.
abbrev pub blocked_networks : List Network
blocked_networks =
    network 0 0 8
    ∷ network 10 0 8
    ∷ network 127 0 8
    ∷ network 100 64 10
    ∷ network 169 254 16
    ∷ network 172 16 12
    ∷ network 192 0 16
    ∷ network 192 168 16
    ∷ network 198 18 15
    ∷ network 224 0 3
    ∷ []

digit-plus : (n : ℕ) → n < 10 → is_digit (n + b'0') ≡ true
digit-plus n h = ground arith

decimal-digits : (n : ℕ) → n < 1000 → all is_digit (decimal n) ≡ true
unfolding decimal
decimal-digits n h = elim (Bool-cases (leb 100 n)) [
  | inl big ↦
      rw
        (
          big,
          digit-plus (n / 100) (omega arith),
          digit-plus ((n / 10) % 10) (omega arith),
          digit-plus (n % 10) (omega arith),
        )
        refl
  | inr small ↦ elim (Bool-cases (leb 10 n)) [
    | inl two ↦
        let hundred : n < 100 = ground arith in
        rw (small, two, digit-plus (n / 10) (omega arith), digit-plus (n % 10) (omega arith)) refl
    | inr one ↦ let ten : n < 10 = ground arith in rw (small, one, digit-plus n ten) refl
  ]
]

digits-decimal : (n : ℕ) → n < 1000 → digits_from 0 (decimal n) ≡ n
unfolding decimal digits_from
digits-decimal n h = elim (Bool-cases (leb 100 n)) [
  | inl big ↦ rw big (omega arith)
  | inr small ↦ elim (Bool-cases (leb 10 n)) [
    | inl two ↦ rw (small, two) (omega arith)
    | inr one ↦ rw (small, one) (omega arith)
  ]
]

number-decimal : (n : ℕ) → n < 1000 → number (decimal n) ≡ some n
unfolding number
number-decimal n h = rw (decimal-digits n h) (rw (digits-decimal n h) refl)

-- A digit is no separator.
digit_point : (c : ℕ) → is_digit c ≡ true → (c == b'.') ≡ false
digit_point c h = ground arith

both_parts : (a b : Bool) → (a && b) ≡ true → (a ≡ true) × (b ≡ true)
both_parts a b h = ground arith

-- A text of digits, cut at the point behind it.
split-digits :
    (s rest : Text)
    → all is_digit s ≡ true
    → split_on b'.' (s ++ b'.' ∷ rest) ≡ s ∷ split_on b'.' rest
unfolding split_on
split-digits [] rest h = refl
split-digits (c ∷ s) rest h =
    let (d, ds) = both_parts (is_digit c) (all is_digit s) h in
    rw (split-digits s rest ds, digit_point c d) refl

split-last : (s : Text) → all is_digit s ≡ true → split_on b'.' s ≡ s ∷ []
unfolding split_on
split-last [] h = refl
split-last (c ∷ s) h =
    let (d, ds) = both_parts (is_digit c) (all is_digit s) h in
    rw (split-last s ds, digit_point c d) refl

-- The octets of an address in decimal are its bytes.
octets-dotted :
    (a b c d : ℕ)
    → a < 256
    → b < 256
    → c < 256
    → d < 256
    → octets (dotted a b c d) ≡ some a ∷ some b ∷ some c ∷ some d ∷ []
unfolding octets dotted
octets-dotted a b c d p q r s =
    rw
      (
        split-digits (decimal a) _ (decimal-digits a (omega arith)),
        split-digits (decimal b) _ (decimal-digits b (omega arith)),
        split-digits (decimal c) _ (decimal-digits c (omega arith)),
        split-last (decimal d) (decimal-digits d (omega arith)),
        number-decimal a (omega arith),
        number-decimal b (omega arith),
        number-decimal c (omega arith),
        number-decimal d (omega arith),
      )
      refl

-- What a prefix of each length leaves of the bytes.
module _ (a b c d : ℕ) (q : b < 256) (r : c < 256) (s : d < 256) where
  prefix_3 : address_value a b c d / 536870912 ≡ a / 32
  prefix_3 = omega arith

  prefix_8 : address_value a b c d / 16777216 ≡ a
  prefix_8 = omega arith

  prefix_10 : address_value a b c d / 4194304 ≡ a * 4 + b / 64
  prefix_10 = omega arith

  prefix_12 : address_value a b c d / 1048576 ≡ a * 16 + b / 16
  prefix_12 = omega arith

  prefix_15 : address_value a b c d / 131072 ≡ a * 128 + b / 2
  prefix_15 = omega arith

  prefix_16 : address_value a b c d / 65536 ≡ a * 256 + b
  prefix_16 = omega arith

-- The tests on the bytes against those on the prefixes.
module _ (a b : ℕ) (p : a < 256) (q : b < 256) where
  multicast : leb 224 a ≡ (a / 32 == 7)
  multicast = ground arith

  shared : (a == 100 && within 64 127 (some b)) ≡ (a * 4 + b / 64 == 401)
  shared = ground arith

  private_172 : (a == 172 && within 16 31 (some b)) ≡ (a * 16 + b / 16 == 2753)
  private_172 = ground arith

  benchmark : (a == 198 && (b == 18 || b == 19)) ≡ (a * 128 + b / 2 == 25353)
  benchmark = ground arith

  link_local : (a == 169 && b == 254) ≡ (a * 256 + b == 43518)
  link_local = ground arith

  protocols : (a == 192 && b == 0) ≡ (a * 256 + b == 49152)
  protocols = ground arith

  private_192 : (a == 192 && b == 168) ≡ (a * 256 + b == 49320)
  private_192 = ground arith

or_any :
    (k l m n o p q r s t : Bool)
    → (k || l || m || n || o || p || q || r || s || t)
      ≡ any (λ b. b) (k ∷ l ∷ m ∷ n ∷ o ∷ p ∷ q ∷ r ∷ s ∷ t ∷ [])
or_any true l m n o p q r s t = refl
or_any false true m n o p q r s t = refl
or_any false false true n o p q r s t = refl
or_any false false false true o p q r s t = refl
or_any false false false false true p q r s t = refl
or_any false false false false false true q r s t = refl
or_any false false false false false false true r s t = refl
or_any false false false false false false false true s t = refl
or_any false false false false false false false false true t = refl
or_any false false false false false false false false false true = refl
or_any false false false false false false false false false false = refl

blocked-octets :
    (a b c d : ℕ)
    → a < 256
    → b < 256
    → c < 256
    → d < 256
    → is_blocked_octets (some a) (some b) ≡ any (contains (address_value a b c d)) blocked_networks
unfolding is_blocked_octets
blocked-octets a b c d p q r s =
    rw
      (
        prefix_3 a b c d q r s,
        prefix_8 a b c d q r s,
        prefix_10 a b c d q r s,
        prefix_12 a b c d q r s,
        prefix_15 a b c d q r s,
        prefix_16 a b c d q r s,
      )
      (rw
        (
          ← multicast a b p q,
          ← shared a b p q,
          ← private_172 a b p q,
          ← benchmark a b p q,
          ← link_local a b p q,
          ← protocols a b p q,
          ← private_192 a b p q,
        )
        (or_any (a == 0) (a == 10) (a == 127) (a == 100 && within 64 127 (some b))
          (a == 169 && b == 254) (a == 172 && within 16 31 (some b)) (a == 192 && b == 0)
          (a == 192 && b == 168) (a == 198 && (b == 18 || b == 19)) (leb 224 a)))

-- An IPv4 address is blocked exactly if it lies in one of the networks that are blocked: 0/8, 10/8,
-- 127/8, 100.64/10, 169.254/16, 172.16/12, 192.0/16, 192.168/16, 198.18/15 and 224/3. The address is
-- the text of its four bytes in decimal, and a network holds the addresses, as numbers of 32 bits,
-- that agree with it in the bits of its prefix.
pub is_blocked_ipv4-networks :
    (a b c d : ℕ)
    → a < 256
    → b < 256
    → c < 256
    → d < 256
    → is_blocked_ipv4 (dotted a b c d) ≡ any (contains (address_value a b c d)) blocked_networks
unfolding is_blocked_ipv4
is_blocked_ipv4-networks a b c d p q r s =
    rw (octets-dotted a b c d p q r s) (blocked-octets a b c d p q r s)
