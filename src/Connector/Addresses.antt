-- ===== src/Connector/Addresses.antt =====
-- hub/connector.mjs: the text of an IP address as a number, the denied ranges, and the address
-- that a call may connect to. Node's `isIP` and the resolver are parameters.
use ainumbers_helm.Prelude.{
  ℕ, zero, suc, ◌+◌, ◌-◌, ◌*◌, ◌/◌, ◌%◌, ◌^◌, String, Bool, true, false, not, ◌&&◌, Option, none,
  some, List, [], ◌∷◌, ◌++◌, map, length, ltb, leb, ◌==◌, if◌then◌else◌, keep, any,
}
use ainumbers_helm.Prelude.Bytes.{codes}

-- text.split(c) for one character
unfoldable pub split_on : ℕ → List ℕ → List (List ℕ)
split_on c [] = [] ∷ []
split_on c (x ∷ xs) =
    let rest = split_on c xs in
    if x == c then [] ∷ rest else elim rest [ [] ↦ (x ∷ []) ∷ [] | p ∷ ps ↦ (x ∷ p) ∷ ps ]

-- Number(text) for a text of decimal digits
unfoldable pub number_from : ℕ → List ℕ → ℕ
number_from acc [] = acc
number_from acc (d ∷ ds) = number_from (acc * 10 + (d - b'0')) ds

unfoldable pub octets : List ℕ → List ℕ
unfolding split_on number_from
octets ip = map (number_from 0) (split_on b'.' ip)

-- (acc << 8) + oct for each octet. JavaScript keeps the shifted value as a signed word; `>>> 0`
-- at the end makes it the remainder that stands here.
unfoldable pub shift_in : ℕ → List ℕ → ℕ
shift_in acc [] = acc % 2 ^ 32
shift_in acc (o ∷ os) = shift_in ((acc * 256 + o) % 2 ^ 32) os

unfoldable pub ipv4_to_int : List ℕ → ℕ
unfolding octets shift_in
ipv4_to_int ip = shift_in 0 (octets ip)

-- x & mask, for the mask of the leading `bits` of a word of `width` bits
unfoldable pub masked : ℕ → ℕ → ℕ → ℕ
masked width bits x = if bits == 0 then 0 else x / 2 ^ (width - bits) * 2 ^ (width - bits)

abbrev pub denied_v4_ranges : List (String × ℕ)
denied_v4_ranges =
    ("0.0.0.0", 8)
    ∷ ("10.0.0.0", 8)
    ∷ ("100.64.0.0", 10)
    ∷ ("127.0.0.0", 8)
    ∷ ("169.254.0.0", 16)
    ∷ ("172.16.0.0", 12)
    ∷ ("192.168.0.0", 16)
    ∷ []

unfoldable pub is_denied_v4 : List ℕ → Bool
unfolding ipv4_to_int masked
is_denied_v4 ip =
    any
      (λ (r : String × ℕ).
        masked 32 r.1 (ipv4_to_int ip) == masked 32 r.1 (ipv4_to_int (codes r.0)))
      denied_v4_ranges

is_double : List ℕ → Bool
is_double (c ∷ d ∷ cs) = c == b':' && d == b':'
is_double _ = false

-- The texts before and after the first "::". `isIP` accepts no address with a second one.
unfoldable pub cut_double : List ℕ → Option (List ℕ × List ℕ)
unfolding is_double
cut_double [] = none
cut_double (c ∷ cs) =
    let rest = cut_double cs in
    if is_double (c ∷ cs)
    then elim cs [ [] ↦ none | d ∷ ds ↦ some ([], ds) ]
    else elim rest [ none ↦ none | some (head, tail) ↦ some (c ∷ head, tail) ]

hex_digit : ℕ → ℕ
hex_digit d = if ltb d 10 then b'0' + d else b'a' + (d - 10)

hex_from : ℕ → ℕ → List ℕ
unfolding hex_digit
hex_from zero n = []
hex_from (suc fuel) n =
    let more = hex_from fuel (n / 16) ++ hex_digit (n % 16) ∷ [] in
    if ltb n 16 then hex_digit n ∷ [] else more

-- n.toString(16) for the sum of two octets, which has at most four digits
to_hex : ℕ → List ℕ
unfolding hex_from
to_hex n = hex_from 4 n

nth_octet : ℕ → List ℕ → ℕ
nth_octet n [] = 0
nth_octet zero (o ∷ os) = o
nth_octet (suc n) (o ∷ os) = nth_octet n os

-- The two groups of an embedded IPv4 tail.
v4_groups : List ℕ → List (List ℕ)
unfolding to_hex nth_octet octets
v4_groups part =
    let v4 = octets part in
    to_hex (nth_octet 0 v4 * 256 + nth_octet 1 v4)
    ∷ to_hex (nth_octet 2 v4 * 256 + nth_octet 3 v4)
    ∷ []

with_v4_tail : List (List ℕ) → List (List ℕ)
unfolding v4_groups
with_v4_tail [] = []
with_v4_tail (p ∷ ps) =
    let rest = with_v4_tail ps in
    elim ps [ [] ↦ if any (λ c. c == b'.') p then v4_groups p else p ∷ [] | _ ∷ _ ↦ p ∷ rest ]

is_empty_part : List ℕ → Bool
is_empty_part [] = true
is_empty_part (c ∷ cs) = false

-- text.split(":").filter(Boolean), with an IPv4 tail as two groups
parts_of : List ℕ → List (List ℕ)
unfolding split_on with_v4_tail is_empty_part
parts_of text = with_v4_tail (keep (λ p. not (is_empty_part p)) (split_on b':' text))

zero_groups : ℕ → List (List ℕ)
zero_groups zero = []
zero_groups (suc n) = (b'0' ∷ []) ∷ zero_groups n

first_groups : ℕ → List (List ℕ) → List (List ℕ)
first_groups zero gs = []
first_groups (suc n) [] = []
first_groups (suc n) (g ∷ gs) = g ∷ first_groups n gs

zeros : ℕ → List ℕ
zeros zero = []
zeros (suc n) = b'0' ∷ zeros n

-- g.padStart(4, "0")
pad_start : List ℕ → List ℕ
unfolding zeros
pad_start g = zeros (4 - length g) ++ g

-- [...headParts, ...zeros, ...tailParts].slice(0, 8); with the zeros there are never fewer than
-- eight groups, so that the loop that adds more adds none.
fill_groups : List (List ℕ) → List (List ℕ) → List (List ℕ)
unfolding zero_groups first_groups pad_start
fill_groups head tail =
    map pad_start (first_groups 8 (head ++ zero_groups (8 - length head - length tail) ++ tail))

before_zone : List (List ℕ) → List ℕ
before_zone [] = []
before_zone (p ∷ ps) = p

unfoldable pub expand_ipv6 : List ℕ → List (List ℕ)
unfolding cut_double parts_of fill_groups before_zone
expand_ipv6 ip =
    let no_zone = before_zone (split_on b'%' ip) in
    elim (cut_double no_zone) [
      | none ↦ fill_groups (parts_of no_zone) []
      | some (head, tail) ↦ fill_groups (parts_of head) (parts_of tail)
    ]

hex_value : ℕ → ℕ
hex_value c = if leb b'a' c then c - b'a' + 10 else if leb b'A' c then c - b'A' + 10 else c - b'0'

-- parseInt(g, 16) for a group of hexadecimal digits
parse_hex : ℕ → List ℕ → ℕ
unfolding hex_value
parse_hex acc [] = acc
parse_hex acc (c ∷ cs) = parse_hex (acc * 16 + hex_value c) cs

join_groups : ℕ → List (List ℕ) → ℕ
unfolding parse_hex
join_groups acc [] = acc
join_groups acc (g ∷ gs) = join_groups (acc * 2 ^ 16 + parse_hex 0 g) gs

unfoldable pub ipv6_to_big_int : List ℕ → ℕ
unfolding expand_ipv6 join_groups
ipv6_to_big_int ip = join_groups 0 (expand_ipv6 ip)

abbrev pub denied_v6_ranges : List (String × ℕ)
denied_v6_ranges = ("::1", 128) ∷ ("::", 128) ∷ ("fe80::", 10) ∷ ("fc00::", 7) ∷ []

unfoldable pub is_denied_v6 : List ℕ → Bool
unfolding ipv6_to_big_int masked
is_denied_v6 ip =
    any
      (λ (r : String × ℕ).
        masked 128 r.1 (ipv6_to_big_int ip) == masked 128 r.1 (ipv6_to_big_int (codes r.0)))
      denied_v6_ranges

unfoldable pub lower_code : ℕ → ℕ
lower_code c = if leb b'A' c && leb c b'Z' then c + 32 else c

-- text.toLowerCase() for ASCII, which host names and addresses are
unfoldable pub lower_codes : List ℕ → List ℕ
unfolding lower_code
lower_codes [] = []
lower_codes (c ∷ cs) = lower_code c ∷ lower_codes cs

-- The rest of a text after a prefix.
after_prefix : List ℕ → List ℕ → Option (List ℕ)
after_prefix [] cs = some cs
after_prefix (p ∷ ps) [] = none
after_prefix (p ∷ ps) (c ∷ cs) = let rest = after_prefix ps cs in if p == c then rest else none

all_digits : List ℕ → Bool
all_digits [] = true
all_digits (c ∷ cs) = let rest = all_digits cs in if leb b'0' c && leb c b'9' then rest else false

is_number_part : List ℕ → Bool
unfolding is_empty_part all_digits
is_number_part p = not (is_empty_part p) && all_digits p

-- ^\d+\.\d+\.\d+\.\d+$
is_dotted : List (List ℕ) → Bool
unfolding is_number_part
is_dotted (a ∷ b ∷ c ∷ d ∷ []) =
    (is_number_part a && is_number_part b) && (is_number_part c && is_number_part d)
is_dotted _ = false

-- The match of ^::ffff:(\d+\.\d+\.\d+\.\d+)$
unfoldable pub mapped_tail : List ℕ → Option (List ℕ)
unfolding after_prefix is_dotted lower_codes split_on
mapped_tail ip = elim (after_prefix (codes "::ffff:") (lower_codes ip)) [
  | none ↦ none
  | some tail ↦ if is_dotted (split_on b'.' tail) then some tail else none
]

pub data Vetting : Type 0 where
  vetted : String → Vetting
  denied_literal : Vetting
  lookup_failed : Vetting
  no_address : Vetting
  rebound : String → Vetting

module _ (is_ip : String → ℕ) where
  unfoldable pub is_denied_ip : String → Bool
  unfolding is_denied_v4 is_denied_v6 mapped_tail
  is_denied_ip ip =
      let v6 : Bool = elim (mapped_tail (codes ip)) [
        | some tail ↦ is_denied_v4 tail
        | none ↦ is_denied_v6 (codes ip)
      ] in
      if is_ip ip == 4 then is_denied_v4 (codes ip) else if is_ip ip == 6 then v6 else true

  -- The first of the addresses that a hostname must not resolve to.
  unfoldable pub first_denied : List String → Option String
  first_denied [] = none
  first_denied (ip ∷ ips) = let rest = first_denied ips in if is_denied_ip ip then some ip else rest

  unfoldable pub vet_addresses : List String → Vetting
  unfolding first_denied
  vet_addresses [] = no_address
  vet_addresses (ip ∷ ips) = elim (first_denied (ip ∷ ips)) [
    | some denied ↦ rebound denied
    | none ↦ vetted ip
  ]

  -- `addresses` is what the resolver answers; none where it rejects.
  unfoldable pub resolve_vetted_ip : Option (List String) → String → Vetting
  unfolding vet_addresses
  resolve_vetted_ip addresses hostname =
      let looked_up : Vetting = elim addresses [
        | none ↦ lookup_failed
        | some ips ↦ vet_addresses ips
      ] in
      if is_ip hostname == 0
      then looked_up
      else if is_denied_ip hostname
      then denied_literal
      else vetted hostname
