-- ===== src/Checkpoint/Live.antt =====
-- The heads that hub/checkpoint.mjs reads from `stream_state` are the live ones, each stream once.
use ainumbers_helm.Checkpoint.{insert_head, bytes_lt, claim_of, order_heads, stream_heads, live_map}
use ainumbers_helm.Journal.{Head, Journal, Claimed, Request, append_entry, insert_row, assert_art12}
use ainumbers_helm.Journal.Append.{append_all, after}
use ainumbers_helm.Prelude.{
  ℕ, String, none, some, List, [], ◌∷◌, str_eq, str_eq→eq, str_eq_refl, All, ◌≡◌, refl, subst,
  Bool-cases, Option-cases, inl, inr, arith, eq_iff, ◌≢◌,
}
use ainumbers_helm.Prelude.Bytes.{utf8}
use ainumbers_helm.Prelude.Dict.{Dict, get, set, get-set}

-- A table's primary key: no two rows have the same.
abbrev pub IsKeyed : Dict Head → Type 0
IsKeyed [] = Unit
IsKeyed ((k, v) ∷ d) = (get d k ≡ none) × IsKeyed d

IsKeyed-set : (d : Dict Head) (k : String) (v : Head) → IsKeyed d → IsKeyed (set d k v)
unfolding get set
IsKeyed-set [] k v h = (refl, tt)
IsKeyed-set ((j, w) ∷ d) k v h = elim (Bool-cases (str_eq j k)) [
  | inl e ↦ rw (set, e) h
  | inr e ↦
      rw (set, e)
        (ground (arith, get-set d k v j, eq_iff k j, eq_iff j k, h.0), IsKeyed-set d k v h.1)
]

append_entry-IsKeyed :
    (sha256_hex : List ℕ → String) (now : String) (q : Request) (j : Journal)
    → IsKeyed j.streams
    → IsKeyed (after sha256_hex (append_entry sha256_hex now q j) j).streams
unfolding append_entry insert_row
append_entry-IsKeyed sha256_hex now q j h = elim (Option-cases (assert_art12 q.entry)) [
  | inl e ↦ rw (after, e) (IsKeyed-set j.streams q.stream_id _ h)
  | inr (x, e) ↦ rw (after, e) h
]

pub append_all-IsKeyed :
    (sha256_hex : List ℕ → String) (qs : List (String × Request)) (j : Journal)
    → IsKeyed j.streams
    → IsKeyed (append_all sha256_hex qs j).streams
append_all-IsKeyed sha256_hex [] j h = h
append_all-IsKeyed sha256_hex ((now, q) ∷ qs) j h =
    append_all-IsKeyed sha256_hex qs (after sha256_hex (append_entry sha256_hex now q j) j)
      (append_entry-IsKeyed sha256_hex now q j h)

-- A row is what its key gives.
IsStored : Dict Head → String × Head → Type 0
IsStored streams row = get streams row.0 ≡ some row.1

IsStored-cons :
    (k : String) (v : Head) (d rows : Dict Head)
    → get d k ≡ none
    → All (IsStored d) rows
    → All (IsStored ((k, v) ∷ d)) rows
unfolding get IsStored
IsStored-cons k v d [] n h = tt
IsStored-cons k v d (row ∷ rows) n h =
    (ground (arith, n, h.0, eq_iff k row.0), IsStored-cons k v d rows n h.1)

IsKeyed-IsStored : (d : Dict Head) → IsKeyed d → All (IsStored d) d
unfolding get IsStored
IsKeyed-IsStored [] h = tt
IsKeyed-IsStored ((k, v) ∷ d) h =
    (rw (str_eq_refl k) refl, IsStored-cons k v d d h.0 (IsKeyed-IsStored d h.1))

-- The claim is the live head of its stream.
abbrev pub IsLive : Dict Head → Claimed → Type 0
IsLive streams c = get streams c.stream_id ≡ some (record { seq = c.journal_seq; rh = c.rh })

insert_head-IsLive :
    (streams : Dict Head) (c : Claimed) (cs : List Claimed)
    → IsLive streams c
    → All (IsLive streams) cs
    → All (IsLive streams) (insert_head c cs)
unfolding insert_head
insert_head-IsLive streams c [] l h = (l, tt)
insert_head-IsLive streams c (d ∷ ds) l h =
    elim (Bool-cases (bytes_lt (utf8 d.stream_id) (utf8 c.stream_id))) [
      | inl e ↦ rw (insert_head, e) (h.0, insert_head-IsLive streams c ds l h.1)
      | inr e ↦ rw (insert_head, e) (l, (h.0, h.1))
    ]

order_heads-IsLive :
    (streams rows : Dict Head)
    → All (IsStored streams) rows
    → All (IsLive streams) (order_heads rows)
unfolding order_heads claim_of IsStored
order_heads-IsLive streams [] h = tt
order_heads-IsLive streams (row ∷ rows) h =
    insert_head-IsLive streams (claim_of row) (order_heads rows) h.0
      (order_heads-IsLive streams rows h.1)

pub stream_heads-IsLive :
    (j : Journal) → IsKeyed j.streams → All (IsLive j.streams) (stream_heads j)
unfolding stream_heads
stream_heads-IsLive j h = order_heads-IsLive j.streams j.streams (IsKeyed-IsStored j.streams h)

-- What the map of live heads gives is live.
abbrev pub IsLiveMap : Dict Head → Dict Claimed → Type 0
IsLiveMap streams d =
    (s : String) (c : Claimed) → get d s ≡ some c → IsLive streams c × (c.stream_id ≡ s)

pub live_map-IsLiveMap :
    (streams : Dict Head) (d : Dict Claimed) (cs : List Claimed)
    → IsLiveMap streams d
    → All (IsLive streams) cs
    → IsLiveMap streams (live_map d cs)
unfolding live_map
live_map-IsLiveMap streams d [] m h = m
live_map-IsLiveMap streams d (c ∷ cs) m h =
    live_map-IsLiveMap streams (set d c.stream_id c) cs
      (λ s x e. elim (Bool-cases (str_eq c.stream_id s)) [
        | inl q ↦
            let same : c ≡ x = cc (rw (get-set d c.stream_id c s, q) at e) in
            subst (λ y. IsLive streams y × (y.stream_id ≡ s)) same (h.0, str_eq→eq c.stream_id s q)
        | inr q ↦ m s x (rw (get-set d c.stream_id c s, q) at e)
      ])
      h.1

live_map-keeps :
    (d : Dict Claimed) (cs : List Claimed) (s : String)
    → get d s ≢ none
    → get (live_map d cs) s ≢ none
unfolding live_map
live_map-keeps d [] s h = h
live_map-keeps d (c ∷ cs) s h =
    live_map-keeps (set d c.stream_id c) cs s (ground (arith, get-set d c.stream_id c s, h))

pub live_map-Found :
    (d : Dict Claimed) (cs : List Claimed) → All (λ c. get (live_map d cs) c.stream_id ≢ none) cs
unfolding live_map
live_map-Found d [] = tt
live_map-Found d (c ∷ cs) = (
  live_map-keeps (set d c.stream_id c) cs c.stream_id
      (ground (arith, get-set d c.stream_id c c.stream_id, str_eq_refl c.stream_id)),
  live_map-Found (set d c.stream_id c) cs,
)
