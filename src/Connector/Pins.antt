-- ===== src/Connector/Pins.antt =====
-- hub/connector.mjs: the table of pinned hostnames and the `dns.lookup` that reads it. A handle is
-- the function that pinHostResolution returns, with its `released` flag.
use Prim.Native.Char.{Char, code}
use Prim.Native.Nat.{compare}
use ainumbers_helm.Matter.Texts.{char_below}
use ainumbers_helm.Prelude.{
  ℕ, zero, suc, ◌+◌, ◌-◌, String, Bool, true, false, ◌&&◌, refl, Option, none, some, List, [], ◌∷◌,
  ◌++◌, leb, if◌then◌else◌,
}
use ainumbers_helm.Prelude.Dict.{Dict, get, set, delete}

pub record Pin : Type 0 where
  pub ip : String
  pub refs : ℕ

pub record Handle : Type 0 where
  pub key : String
  pub released : Bool

pub record Pinning : Type 0 where
  pub pins : Dict Pin
  pub handles : List Handle

unfoldable pub no_pins : Pinning
no_pins = record { pins = []; handles = [] }

-- `existing` with one more reference and the new address, or a new pin
unfoldable pub repin : Option Pin → String → Pin
repin none ip = record { ip = ip; refs = 1 }
repin (some existing) ip = record { ip = ip; refs = suc existing.refs }

unfoldable pub lower_char : Char → Char
unfolding char_below
lower_char c =
    if leb b'A' (code c) && leb (code c) b'Z'
    then char_below (code c + 32) (compare (code c + 32) 55296) refl
    else c

-- String(hostname).toLowerCase(), of the ASCII letters, which host names are made of
unfoldable pub lower_host : String → String
unfolding lower_char
lower_host String.[] = String.[]
lower_host (String.◌∷◌ c cs) = String.◌∷◌ (lower_char c) (lower_host cs)

-- The part of `pinHostResolution` below the key.
unfoldable pub pin_key : String → String → Pinning → Pinning
unfolding repin
pin_key key ip s = record {
  pins = set s.pins key (repin (get s.pins key) ip);
  handles = s.handles ++ (record { key = key; released = false }) ∷ [];
}

unfoldable pub pin_host_resolution : String → String → Pinning → Pinning
unfolding pin_key lower_host
pin_host_resolution hostname ip s = pin_key (lower_host hostname) ip s

-- The flag of the handle becomes true; the key of a handle that was not released before.
unfoldable pub release : ℕ → List Handle → List Handle × Option String
release n [] = ([], none)
release zero (h ∷ hs) =
    if h.released then (h ∷ hs, none) else ((record h { released = true }) ∷ hs, some h.key)
release (suc n) (h ∷ hs) = let rest = release n hs in (h ∷ rest.0, rest.1)

unfoldable pub drop_reference : Option Pin → String → Dict Pin → Dict Pin
drop_reference none key pins = pins
drop_reference (some entry) key pins =
    if leb entry.refs 1
    then delete pins key
    else set pins key (record entry { refs = entry.refs - 1 })

unfoldable pub unpin_key : Option String → Dict Pin → Dict Pin
unfolding drop_reference
unpin_key none pins = pins
unpin_key (some key) pins = drop_reference (get pins key) key pins

-- unpin, of the n-th handle
unfoldable pub unpin : ℕ → Pinning → Pinning
unfolding release unpin_key
unpin n s =
    let released = release n s.handles in
    record { pins = unpin_key released.1 s.pins; handles = released.0 }

-- The address of a pinned hostname; none where the real lookup is called.
unfoldable pub pinned_dns_lookup : Pinning → String → Option String
unfolding lower_host
pinned_dns_lookup s hostname = elim (get s.pins (lower_host hostname)) [
  | none ↦ none
  | some pin ↦ some pin.ip
]
