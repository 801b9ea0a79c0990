-- ===== src/Connector/Denied.antt =====
-- The ranges of hub/connector.mjs that no call may reach, in terms of octets and numbers.
use ainumbers_helm.Prelude.{
  ℕ, ◌+◌, ◌*◌, ◌/◌, ◌≤◌, ◌<◌, ◌^◌, String, true, false, Option, none, some, List, [], ◌∷◌,
  Bool-cases, Option-cases, arith, inl, inr, ◌≡◌, refl, ◌↔◌, ◌⊎◌, subst,
}
use ainumbers_helm.Prelude.Bytes.{codes}
use ainumbers_helm.Connector.Addresses.{
  octets, shift_in, ipv4_to_int, masked, is_denied_v4, is_denied_v6, ipv6_to_big_int, is_denied_ip,
  first_denied, vet_addresses, mapped_tail, resolve_vetted_ip, vetted,
}

-- An address of "this" network, a private, shared, loopback or link-local one.
abbrev pub IsInternal : ℕ → ℕ → Type 0
IsInternal a b =
    a ≡ 0
    ⊎ (a ≡ 10
        ⊎ (a ≡ 127
            ⊎ ((a ≡ 100 × (64 ≤ b × b < 128))
                ⊎ ((a ≡ 169 × b ≡ 254) ⊎ ((a ≡ 172 × (16 ≤ b × b < 32)) ⊎ (a ≡ 192 × b ≡ 168))))))

shifted :
    (a b c d : ℕ)
    → a < 256 × b < 256 × c < 256 × d < 256
    → shift_in 0 (a ∷ b ∷ c ∷ d ∷ []) ≡ a * 16777216 + b * 65536 + c * 256 + d
unfolding shift_in
shifted a b c d h = omega arith

-- The leading 8, 10, 12 and 16 bits of the number.
leading :
    (a b c d : ℕ)
    → a < 256 × b < 256 × c < 256 × d < 256
    → ((a * 16777216 + b * 65536 + c * 256 + d) / 16777216 ≡ a)
      × ((a * 16777216 + b * 65536 + c * 256 + d) / 4194304 ≡ a * 4 + b / 64)
      × ((a * 16777216 + b * 65536 + c * 256 + d) / 1048576 ≡ a * 16 + b / 16)
      × ((a * 16777216 + b * 65536 + c * 256 + d) / 65536 ≡ a * 256 + b)
leading a b c d h = (omega arith, omega arith, omega arith, omega arith)

-- A dotted address is denied exactly where its octets are those of an internal network.
pub is_denied_v4_iff :
    (ip : List ℕ) (a b c d : ℕ)
    → octets ip ≡ a ∷ b ∷ c ∷ d ∷ []
    → a < 256 × b < 256 × c < 256 × d < 256
    → is_denied_v4 ip ≡ true ↔ IsInternal a b
unfolding is_denied_v4 ipv4_to_int masked octets
is_denied_v4_iff ip a b c d e h =
    rw
      (
        e,
        shifted a b c d h,
        (leading a b c d h).0,
        (leading a b c d h).1,
        (leading a b c d h).2,
        (leading a b c d h).3,
      )
      (ground arith)

-- The loopback and unspecified addresses, the link-local and the unique local ones.
abbrev pub IsInternal6 : ℕ → Type 0
IsInternal6 n =
    n ≡ 1
    ⊎ (n ≡ 0
        ⊎ ((0xfe80 * 2 ^ 112 ≤ n × n < 0xfec0 * 2 ^ 112)
            ⊎ (0xfc00 * 2 ^ 112 ≤ n × n < 0xfe00 * 2 ^ 112)))

-- An IPv6 address is denied exactly where its number lies in one of the four ranges.
pub is_denied_v6_iff : (ip : List ℕ) → is_denied_v6 ip ≡ true ↔ IsInternal6 (ipv6_to_big_int ip)
unfolding is_denied_v6 masked ipv6_to_big_int
is_denied_v6_iff ip = ground arith

module _ (is_ip : String → ℕ) where
  -- Let an IPv6 address that is not written ::ffff: with a dotted tail have the number of an
  -- IPv4-mapped address. Then it is not denied, whatever the IPv4 address that it maps.
  pub mapped_address_passes :
      (ip : String) (v4 : ℕ)
      → is_ip ip ≡ 6
      → mapped_tail (codes ip) ≡ none
      → v4 < 2 ^ 32
      → ipv6_to_big_int (codes ip) ≡ 0xffff * 2 ^ 32 + v4
      → is_denied_ip is_ip ip ≡ false
  unfolding is_denied_ip
  mapped_address_passes ip v4 six spelled small e = elim (Bool-cases (is_denied_v6 (codes ip))) [
    | inr k ↦ rw (six, spelled, k) refl
    | inl k ↦
        let internal : IsInternal6 (ipv6_to_big_int (codes ip)) =
          (is_denied_v6_iff (codes ip)).0 k in
        absurd (ground arith)
  ]

  first_denied-Allowed :
      (ip : String) (ips : List String)
      → first_denied is_ip (ip ∷ ips) ≡ none
      → is_denied_ip is_ip ip ≡ false
  unfolding first_denied
  first_denied-Allowed ip ips h = ground arith

  vet_addresses-Allowed :
      (ips : List String) (ip : String)
      → vet_addresses is_ip ips ≡ vetted ip
      → is_denied_ip is_ip ip ≡ false
  unfolding vet_addresses
  vet_addresses-Allowed [] ip h = cc
  vet_addresses-Allowed (first ∷ ips) ip h =
      elim (Option-cases (first_denied is_ip (first ∷ ips))) [
        | inl e ↦
            let same : first ≡ ip = cc (rw (vet_addresses, e) at h) in
            subst (λ a. is_denied_ip is_ip a ≡ false) same (first_denied-Allowed first ips e)
        | inr (d, e) ↦ cc (rw (vet_addresses, e) at h)
      ]

  -- An address that resolveVettedIp gives is not denied.
  pub vetted-Allowed :
      (addresses : Option (List String)) (hostname ip : String)
      → resolve_vetted_ip is_ip addresses hostname ≡ vetted ip
      → is_denied_ip is_ip ip ≡ false
  unfolding resolve_vetted_ip
  vetted-Allowed none hostname ip h = ground arith
  vetted-Allowed (some ips) hostname ip h = ground (arith, vet_addresses-Allowed ips ip)
