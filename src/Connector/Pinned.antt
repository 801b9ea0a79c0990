-- ===== src/Connector/Pinned.antt =====
-- The table of pinned hostnames of hub/connector.mjs refines a view that knows only the handles
-- and the last address of each hostname.
use Prim.Native.Char.{Char, code}
use Prim.Native.Nat.{compare, Ordering, lt, eq, gt, ◌<◌}
use text.Mathlib.TextEquality.{Char-path}
use ainumbers_helm.Connector.Addresses.{lower_code, lower_codes}
use ainumbers_helm.Matter.Texts.{char_below}
use ainumbers_helm.Prelude.Bytes.{codes}
use ainumbers_helm.Prelude.{
  ◌+◌, ◌&&◌, leb, ℕ, zero, suc, String, false, Option, none, some, List, [], ◌∷◌, ◌++◌,
  if◌then◌else◌, ◌≡◌, refl, sym, ◌∙◌, ap, arith, str_eq, str_eq→eq, str_eq_refl, Bool-cases,
  Option-cases, inl, inr,
}
use ainumbers_helm.Prelude.Dict.{Dict, get, set, get-set, get-delete}
use ainumbers_helm.Connector.Pins.{
  Pin, Handle, Pinning, no_pins, repin, pin_host_resolution, release, drop_reference, unpin_key,
  unpin, lower_char, lower_host, pin_key, pinned_dns_lookup,
}

pub data PinCall : Type 0 where
  pin : String → String → PinCall
  unpin_nth : ℕ → PinCall

abbrev pub call_pins : PinCall → Pinning → Pinning
call_pins (pin key ip) s = pin_host_resolution key ip s
call_pins (unpin_nth n) s = unpin n s

abbrev pub run_pins : List PinCall → Pinning → Pinning
run_pins [] s = s
run_pins (c ∷ cs) s = run_pins cs (call_pins c s)

-- What the table promises: the handles, and for each hostname the address pinned last.
pub record View : Type 0 where
  pub handles : List Handle
  pub last : Dict String

abbrev pub pinned_view : String → String → View → View
pinned_view key ip v = record {
  handles = v.handles ++ (record { key = key; released = false }) ∷ [];
  last = set v.last key ip;
}

abbrev pub view_call : PinCall → View → View
view_call (pin hostname ip) v = pinned_view (lower_host hostname) ip v
view_call (unpin_nth n) v = record v { handles = (release n v.handles).0 }

abbrev pub view_run : List PinCall → View → View
view_run [] v = v
view_run (c ∷ cs) v = view_run cs (view_call c v)

-- The number of handles on a hostname that are not released.
abbrev pub open_handles : String → List Handle → ℕ
open_handles key [] = 0
open_handles key (h ∷ hs) =
    let rest = open_handles key hs in
    if h.released then rest else if str_eq h.key key then suc rest else rest

abbrev pub pin_of : ℕ → Option String → Option Pin
pin_of zero ip = none
pin_of (suc n) none = none
pin_of (suc n) (some ip) = some (record { ip = ip; refs = suc n })

-- A hostname is pinned while a handle on it is open, to the address pinned last.
abbrev pub pin_in : View → String → Option Pin
pin_in v key = pin_of (open_handles key v.handles) (get v.last key)

pub record Refines (s : Pinning) (v : View) : Type 0 where
  pub same_handles : s.handles ≡ v.handles
  pub known : (key : String) → (get v.last key ≡ none) → open_handles key v.handles ≡ 0
  pub same_pins : (key : String) → get s.pins key ≡ pin_in v key

open_handles-append :
    (key k : String) (hs : List Handle)
    → open_handles key (hs ++ (record { key = k; released = false }) ∷ [])
      ≡ (if str_eq k key then suc (open_handles key hs) else open_handles key hs)
open_handles-append key k [] = refl
open_handles-append key k (h ∷ hs) = ground (arith, open_handles-append key k hs)

abbrev taken : Option String → String → ℕ → ℕ
taken none key n = n
taken (some k) key n = if str_eq k key then suc n else n

taken-suc : (o : Option String) (key : String) (n : ℕ) → taken o key (suc n) ≡ suc (taken o key n)
taken-suc none key n = refl
taken-suc (some k) key n = ground arith

-- Releasing an open handle leaves one open handle less on its hostname.
open_handles-release :
    (key : String) (n : ℕ) (hs : List Handle)
    → open_handles key hs ≡ taken (release n hs).1 key (open_handles key (release n hs).0)
unfolding release
open_handles-release key n [] = refl
open_handles-release key zero (h ∷ hs) = ground arith
open_handles-release key (suc n) (h ∷ hs) = elim (Bool-cases h.released) [
  | inl e ↦ rw e (open_handles-release key n hs)
  | inr e ↦ elim (Bool-cases (str_eq h.key key)) [
    | inl k ↦
        rw (e, k, open_handles-release key n hs)
          (sym (taken-suc (release n hs).1 key (open_handles key (release n hs).0)))
    | inr k ↦ rw (e, k) (open_handles-release key n hs)
  ]
]

repin-pin_of :
    (n : ℕ) (l : Option String) (ip : String)
    → (l ≡ none → n ≡ 0)
    → repin (pin_of n l) ip ≡ record { ip = ip; refs = suc n }
unfolding repin
repin-pin_of zero l ip h = refl
repin-pin_of (suc n) none ip h = absurd (omega (arith, h refl))
repin-pin_of (suc n) (some i) ip h = refl

-- A release that is the last one deletes the entry, another one counts it down.
get-drop_reference :
    (k key ip : String) (m : ℕ) (pins : Dict Pin)
    → get (drop_reference (some (record { ip = ip; refs = suc m })) k pins) key
      ≡ (if str_eq k key then pin_of m (some ip) else get pins key)
unfolding drop_reference
get-drop_reference k key ip zero pins = ground (arith, get-delete pins k key)
get-drop_reference k key ip (suc m) pins =
    ground (arith, get-set pins k (record { ip = ip; refs = suc m }) key)

pin-Refines :
    (k ip : String) (s : Pinning) (v : View)
    → Refines s v
    → Refines (pin_key k ip s) (pinned_view k ip v)
unfolding pin_key
pin-Refines k ip s v r = record {
  same_handles = rw r.same_handles refl;
  known = λ key e.
      ground (arith, open_handles-append key k v.handles, get-set v.last k ip key, r.known key);
  same_pins = λ key. elim (Bool-cases (str_eq k key)) [
    | inl q ↦
        rw
          (
            get-set s.pins k (repin (get s.pins k) ip) key,
            open_handles-append key k v.handles,
            get-set v.last k ip key,
            q,
          )
          (let same : k ≡ key = str_eq→eq k key q in
            rw
              (
                r.same_pins k,
                repin-pin_of (open_handles k v.handles) (get v.last k) ip (r.known k),
                same,
              )
              refl)
    | inr q ↦
        rw
          (
            get-set s.pins k (repin (get s.pins k) ip) key,
            open_handles-append key k v.handles,
            get-set v.last k ip key,
            q,
          )
          (r.same_pins key)
  ];
}

unpin-known :
    (key : String) (n : ℕ) (v : View)
    → get v.last key ≡ none
    → open_handles key v.handles ≡ 0
    → open_handles key (release n v.handles).0 ≡ 0
unpin-known key n v e h = ground (arith, open_handles-release key n v.handles)

unpin_nothing :
    (key : String) (n : ℕ) (s : Pinning) (v : View)
    → (release n v.handles).1 ≡ none
    → Refines s v
    → get s.pins key ≡ pin_of (open_handles key (release n v.handles).0) (get v.last key)
unpin_nothing key n s v q r =
    r.same_pins key
    ∙ ap (λ m. pin_of m (get v.last key)) (rw q at (open_handles-release key n v.handles))

open_after :
    (k j : String) (n : ℕ) (v : View)
    → (release n v.handles).1 ≡ some k
    → open_handles j v.handles ≡ (
        if str_eq k j
        then suc (open_handles j (release n v.handles).0)
        else open_handles j (release n v.handles).0)
open_after k j n v q = rw q at (open_handles-release j n v.handles)

unpin_settled :
    (k key ip : String) (n : ℕ) (s : Pinning) (v : View)
    → (release n v.handles).1 ≡ some k
    → get v.last k ≡ some ip
    → Refines s v
    → (if str_eq k key
        then pin_of (open_handles k (release n v.handles).0) (some ip)
        else get s.pins key)
      ≡ pin_of (open_handles key (release n v.handles).0) (get v.last key)
unpin_settled k key ip n s v q e r = elim (Bool-cases (str_eq k key)) [
  | inl c ↦ let same : k ≡ key = str_eq→eq k key c in rw (c, sym same, e) refl
  | inr c ↦
      rw c
        (r.same_pins key ∙ ap (λ m. pin_of m (get v.last key)) (rw c at (open_after k key n v q)))
]

unpin_counted :
    (k key : String) (n : ℕ) (s : Pinning) (v : View)
    → (release n v.handles).1 ≡ some k
    → Refines s v
    → get (drop_reference (get s.pins k) k s.pins) key
      ≡ pin_of (open_handles key (release n v.handles).0) (get v.last key)
unpin_counted k key n s v q r =
    let m : ℕ = open_handles k (release n v.handles).0 in
    let counted : open_handles k v.handles ≡ suc m = rw (str_eq_refl k) at (open_after k k n v q) in
    elim (Option-cases (get v.last k)) [
      | inl e ↦ absurd (omega (arith, r.known k e, counted))
      | inr (ip, e) ↦
          let entry : get s.pins k ≡ some (record { ip = ip; refs = suc m }) =
            rw (counted, e) at (r.same_pins k) in
          rw (entry, get-drop_reference k key ip m s.pins) (unpin_settled k key ip n s v q e r)
    ]

unpin-Refines :
    (n : ℕ) (s : Pinning) (v : View) → Refines s v → Refines (unpin n s) (view_call (unpin_nth n) v)
unfolding unpin unpin_key
unpin-Refines n s v r = record {
  same_handles = rw r.same_handles refl;
  known = λ key e. unpin-known key n v e (r.known key e);
  same_pins = λ key. elim (Option-cases (release n v.handles).1) [
    | inl q ↦ rw (r.same_handles, q) (unpin_nothing key n s v q r)
    | inr (k, q) ↦ rw (r.same_handles, q) (unpin_counted k key n s v q r)
  ];
}

run-Refines :
    (calls : List PinCall) (s : Pinning) (v : View)
    → Refines s v
    → Refines (run_pins calls s) (view_run calls v)
run-Refines [] s v r = r
run-Refines (pin hostname ip ∷ calls) s v r =
    run-Refines calls (pin_host_resolution hostname ip s) (view_call (pin hostname ip) v)
      (unfold pin_host_resolution in pin-Refines (lower_host hostname) ip s v r)
run-Refines (unpin_nth n ∷ calls) s v r =
    run-Refines calls (unpin n s) (view_call (unpin_nth n) v) (unpin-Refines n s v r)

abbrev pub no_view : View
no_view = record { handles = []; last = [] }

no_pins-Refines : Refines no_pins no_view
unfolding no_pins get
no_pins-Refines = record { same_handles = refl; known = λ key e. refl; same_pins = λ key. refl }

abbrev pub address_in : Option Pin → Option String
address_in none = none
address_in (some p) = some p.ip

looked_up :
    (s : Pinning) (hostname : String) (o : Option Pin)
    → get s.pins (lower_host hostname) ≡ o
    → pinned_dns_lookup s hostname ≡ address_in o
unfolding pinned_dns_lookup
looked_up s hostname none e = rw (pinned_dns_lookup, e) refl
looked_up s hostname (some p) e = rw (pinned_dns_lookup, e) refl

code-char_below :
    (n : ℕ) (o : Ordering) (e : compare n 55296 ≡ o) → n < 55296 → code (char_below n o e) ≡ n
unfolding char_below
code-char_below n lt e h = refl
code-char_below n eq e h = absurd (ground (arith, e, h))
code-char_below n gt e h = absurd (ground (arith, e, h))

code-lower_char : (c : Char) → code (lower_char c) ≡ lower_code (code c)
unfolding lower_char lower_code
code-lower_char c = elim (Bool-cases (leb b'A' (code c) && leb (code c) b'Z')) [
  | inr other ↦ rw (lower_char, lower_code, other) refl
  | inl upper ↦
      rw (lower_char, lower_code, upper)
        (code-char_below (code c + 32) (compare (code c + 32) 55296) refl (ground (arith, upper)))
]

-- Texts that agree but for the case of their letters have one key.
same_letters :
    (a b : String) → lower_codes (codes a) ≡ lower_codes (codes b) → lower_host a ≡ lower_host b
unfolding lower_codes lower_host
same_letters String.[] String.[] e = refl
same_letters String.[] (String.◌∷◌ d ds) e = cc
same_letters (String.◌∷◌ c cs) String.[] e = cc
same_letters (String.◌∷◌ c cs) (String.◌∷◌ d ds) e =
    let heads : lower_code (code c) ≡ lower_code (code d) = cc in
    let tails : lower_codes (codes cs) ≡ lower_codes (codes ds) = cc in
    let first : lower_char c ≡ lower_char d =
      Char-path (lower_char c) (lower_char d)
        (code-lower_char c ∙ heads ∙ sym (code-lower_char d)) in
    rw (first, same_letters cs ds tails) refl

-- After any interleaving of pinHostResolution and of releases, repeated ones included, the key of a
-- hostname, its lower-case text, is in the table exactly while a handle on it is open, with the number
-- of those handles as its count and the address that was pinned last; and a lookup gives that address
-- while there is one, for each text that has the letters of the hostname, upper or lower.
pub pins_refine_view :
    (calls : List PinCall) (hostname other : String)
    → lower_codes (codes other) ≡ lower_codes (codes hostname)
    → (get (run_pins calls no_pins).pins (lower_host hostname)
        ≡ pin_in (view_run calls no_view) (lower_host hostname))
      × (pinned_dns_lookup (run_pins calls no_pins) other
          ≡ address_in (pin_in (view_run calls no_view) (lower_host hostname)))
pins_refine_view calls hostname other e =
    let same =
      (run-Refines calls no_pins no_view no_pins-Refines).same_pins (lower_host hostname) in
    let key = same_letters other hostname e in
    (
      same,
      looked_up (run_pins calls no_pins) other _
          (ap (λ k. get (run_pins calls no_pins).pins k) key ∙ same),
    )
