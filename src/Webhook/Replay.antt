-- ===== src/Webhook/Replay.antt =====
-- What the replay stage of the inbound webhook (hub/server.mjs, hub/webhook-guard.mjs) rejects.
use ainumbers_helm.Json.{Json, is_truthy}
use ainumbers_helm.Prelude.{
  ◌&&◌, ℕ, ◌+◌, ◌≤◌, ◌<◌, String, ◌≡◌, refl, true, false, Option, none, some, List, [], ◌∷◌, leb,
  leb→le, str_eq_refl, eq_iff, All, Bool-cases, arith, inl, inr,
}
use ainumbers_helm.Prelude.Dict.{Dict, get, set, get-set}
use ainumbers_helm.Webhook.{
  nonce_tolerance_ms, is_timestamp_fresh, sweep, map_key, consume_key, check_and_consume_nonce,
  admit,
}

-- The two readings of the clock follow the arrival.
pub record Delivered : Type 0 where
  pub timestamp : Option ℕ
  pub nonce : Json
  pub checked : ℕ
  pub consumed : ℕ

abbrev pub admit_all : List Delivered → Dict ℕ → Dict ℕ
admit_all [] seen = seen
admit_all (c ∷ cs) seen = admit_all cs (admit c.timestamp c.nonce c.checked c.consumed seen).0

-- an entry that has not expired survives the sweep
sweep_keeps :
    (now e : ℕ) (k : String) (seen : Dict ℕ)
    → get seen k ≡ some e
    → now ≤ e
    → get (sweep now seen) k ≡ some e
unfolding get sweep
sweep_keeps now e k [] h l = h
sweep_keeps now e k ((j, x) ∷ seen) h l = ground (arith, sweep_keeps now e k seen)

consume_keeps :
    (o : Option String) (k : String) (ttl now e : ℕ) (seen : Dict ℕ)
    → get seen k ≡ some e
    → get (consume_key o ttl now seen).0 k ≡ some e
unfolding consume_key
consume_keeps none k ttl now e seen h = h
consume_keeps (some n) k ttl now e seen h = ground (arith, get-set seen n (now + ttl) k, eq_iff n k)

admit_keeps :
    (c : Delivered) (k : String) (e : ℕ) (seen : Dict ℕ)
    → get seen k ≡ some e
    → c.consumed ≤ e
    → get (admit c.timestamp c.nonce c.checked c.consumed seen).0 k ≡ some e
unfolding admit check_and_consume_nonce
admit_keeps c k e seen h l =
    elim (Bool-cases
      (is_truthy c.nonce && is_timestamp_fresh c.timestamp nonce_tolerance_ms c.checked)) [
        | inl fresh ↦
            rw (admit, fresh)
              (consume_keeps (map_key c.nonce) k nonce_tolerance_ms c.consumed e
                (sweep c.consumed seen) (sweep_keeps c.consumed e k seen h l))
        | inr stale ↦ rw (admit, stale) h
      ]

admit_all_keeps :
    (cs : List Delivered) (k : String) (e : ℕ) (seen : Dict ℕ)
    → get seen k ≡ some e
    → All (λ c. c.consumed ≤ e) cs
    → get (admit_all cs seen) k ≡ some e
admit_all_keeps [] k e seen h l = h
admit_all_keeps (c ∷ cs) k e seen h l =
    admit_all_keeps cs k e (admit c.timestamp c.nonce c.checked c.consumed seen).0
      (admit_keeps c k e seen h l.0) l.1

consumed_key :
    (k : String) (ttl now : ℕ) (seen : Dict ℕ)
    → (consume_key (some k) ttl now seen).1 ≡ true
    → get (consume_key (some k) ttl now seen).0 k ≡ some (now + ttl)
unfolding consume_key
consumed_key k ttl now seen h = ground (arith, get-set seen k (now + ttl) k, str_eq_refl k)

admitted_nonce :
    (ts : Option ℕ) (n : Json) (k : String) (checked now : ℕ) (seen : Dict ℕ)
    → map_key n ≡ some k
    → (admit ts n checked now seen).1 ≡ true
    → get (admit ts n checked now seen).0 k ≡ some (now + nonce_tolerance_ms)
unfolding admit check_and_consume_nonce
admitted_nonce ts n k checked now seen m h =
    elim (Bool-cases (is_truthy n && is_timestamp_fresh ts nonce_tolerance_ms checked)) [
      | inl fresh ↦
          rw (admit, fresh, check_and_consume_nonce, m)
            (consumed_key k nonce_tolerance_ms now (sweep now seen)
              (rw (admit, fresh, check_and_consume_nonce, m) at h))
      | inr stale ↦ cc (rw (admit, stale) at h)
    ]

seen_rejected :
    (ts : Option ℕ) (n : Json) (k : String) (checked now e : ℕ) (seen : Dict ℕ)
    → map_key n ≡ some k
    → get seen k ≡ some e
    → now ≤ e
    → (admit ts n checked now seen).1 ≡ false
unfolding admit check_and_consume_nonce consume_key
seen_rejected ts n k checked now e seen m h l =
    elim (Bool-cases (is_truthy n && is_timestamp_fresh ts nonce_tolerance_ms checked)) [
      | inl fresh ↦
          rw (admit, fresh, check_and_consume_nonce, m, consume_key, sweep_keeps now e k seen h l)
            refl
      | inr stale ↦ rw (admit, stale) refl
    ]

stale_rejected :
    (t checked now : ℕ) (n : Json) (seen : Dict ℕ)
    → t + nonce_tolerance_ms < checked
    → (admit (some t) n checked now seen).1 ≡ false
unfolding admit is_timestamp_fresh
stale_rejected t checked now n seen h = elim (Bool-cases (is_truthy n)) [
  | inr e ↦ rw (admit, e) refl
  | inl e ↦ rw (admit, e) (ground arith)
]

All-le :
    (a b : ℕ) (cs : List Delivered)
    → a ≤ b
    → All (λ c. c.consumed ≤ a) cs
    → All (λ c. c.consumed ≤ b) cs
All-le a b [] h l = tt
All-le a b (c ∷ cs) h l = (omega arith, All-le a b cs h l.1)

-- Let a delivery with a nonce of a primitive type be admitted, and let its timestamp lie before the
-- reading of the clock that consumed the nonce by at least as much as the two readings at the
-- repetition lie apart. Then the repetition, the same timestamp and nonce, is rejected, whatever
-- deliveries come in between, none of them later than it.
pub no_replay :
    (t checked first checked_again again : ℕ) (n : Json) (k : String) (seen : Dict ℕ)
    (cs : List Delivered)
    → map_key n ≡ some k
    → t + again ≤ first + checked_again
    → (admit (some t) n checked first seen).1 ≡ true
    → All (λ c. c.consumed ≤ again) cs
    → (admit
        (some t)
        n
        checked_again
        again
        (admit_all cs (admit (some t) n checked first seen).0)).1
      ≡ false
no_replay t checked first checked_again again n k seen cs m past ok l =
    elim (Bool-cases (leb again (first + nonce_tolerance_ms))) [
      | inl soon ↦
          let within = leb→le again (first + nonce_tolerance_ms) soon in
          seen_rejected (some t) n k checked_again again (first + nonce_tolerance_ms) _ m
            (admit_all_keeps cs k (first + nonce_tolerance_ms) _
              (admitted_nonce (some t) n k checked first seen m ok)
              (All-le again (first + nonce_tolerance_ms) cs within l))
            within
      | inr late ↦ stale_rejected t checked_again again n _ (ground arith)
    ]

-- no key stands twice
abbrev pub Unique : Dict ℕ → Type 0
Unique [] = Unit
Unique ((k, v) ∷ d) = (get d k ≡ none) × Unique d

sweep-none :
    (now : ℕ) (k : String) (seen : Dict ℕ) → get seen k ≡ none → get (sweep now seen) k ≡ none
unfolding get sweep
sweep-none now k [] h = refl
sweep-none now k ((j, x) ∷ seen) h = ground (arith, sweep-none now k seen)

sweep_expires :
    (now e : ℕ) (k : String) (seen : Dict ℕ)
    → Unique seen
    → get seen k ≡ some e
    → e < now
    → get (sweep now seen) k ≡ none
unfolding get sweep
sweep_expires now e k [] u h l = refl
sweep_expires now e k ((j, x) ∷ seen) u h l = ground (
  arith,
  eq_iff j k,
  sweep-none now j seen u.0,
  sweep-none now k seen,
  sweep_expires now e k seen u.1,
)

Unique-sweep : (now : ℕ) (seen : Dict ℕ) → Unique seen → Unique (sweep now seen)
unfolding sweep
Unique-sweep now [] u = tt
Unique-sweep now ((k, v) ∷ seen) u =
    ground (arith, sweep-none now k seen u.0, Unique-sweep now seen u.1)

Unique-set : (d : Dict ℕ) (k : String) (v : ℕ) → Unique d → Unique (set d k v)
unfolding set
Unique-set [] k v u = (unfold get in refl, tt)
Unique-set ((j, w) ∷ d) k v u =
    ground (arith, eq_iff j k, get-set d k v j, eq_iff k j, Unique-set d k v u.1)

consume-Unique :
    (o : Option String) (ttl now : ℕ) (seen : Dict ℕ)
    → Unique seen
    → Unique (consume_key o ttl now seen).0
unfolding consume_key
consume-Unique none ttl now seen u = u
consume-Unique (some k) ttl now seen u = ground (arith, Unique-set seen k (now + ttl) u)

admit-Unique :
    (ts : Option ℕ) (n : Json) (checked now : ℕ) (seen : Dict ℕ)
    → Unique seen
    → Unique (admit ts n checked now seen).0
unfolding admit check_and_consume_nonce
admit-Unique ts n checked now seen u =
    elim (Bool-cases (is_truthy n && is_timestamp_fresh ts nonce_tolerance_ms checked)) [
      | inl fresh ↦
          rw (admit, fresh)
            (consume-Unique (map_key n) nonce_tolerance_ms now (sweep now seen)
              (Unique-sweep now seen u))
      | inr stale ↦ rw (admit, stale) u
    ]

fresh_within :
    (t checked : ℕ)
    → t ≤ checked
    → checked ≤ t + nonce_tolerance_ms
    → is_timestamp_fresh (some t) nonce_tolerance_ms checked ≡ true
unfolding is_timestamp_fresh
fresh_within t checked after fresh = ground arith

admitted-truthy :
    (ts : Option ℕ) (n : Json) (checked now : ℕ) (seen : Dict ℕ)
    → (admit ts n checked now seen).1 ≡ true
    → is_truthy n ≡ true
unfolding admit
admitted-truthy ts n checked now seen ok = elim (Bool-cases (is_truthy n)) [
  | inl e ↦ e
  | inr e ↦ cc (rw (admit, e) at ok)
]

admitted_unseen :
    (t checked again : ℕ) (n : Json) (k : String) (seen : Dict ℕ)
    → map_key n ≡ some k
    → is_truthy n ≡ true
    → is_timestamp_fresh (some t) nonce_tolerance_ms checked ≡ true
    → get (sweep again seen) k ≡ none
    → (admit (some t) n checked again seen).1 ≡ true
unfolding admit check_and_consume_nonce consume_key
admitted_unseen t checked again n k seen m truthy fresh gone =
    rw (admit, truthy, fresh, check_and_consume_nonce, m, consume_key, gone) refl

-- A delivery whose timestamp lies in the future of its admission is admitted a second time, the
-- same timestamp and nonce of a primitive type, at every moment after its nonce has expired at which
-- the timestamp is still fresh.
pub future_replay_admitted :
    (t checked first checked_again again : ℕ) (n : Json) (k : String) (seen : Dict ℕ)
    → map_key n ≡ some k
    → Unique seen
    → (admit (some t) n checked first seen).1 ≡ true
    → first + nonce_tolerance_ms < again
    → t ≤ checked_again
    → checked_again ≤ t + nonce_tolerance_ms
    → (admit (some t) n checked_again again (admit (some t) n checked first seen).0).1 ≡ true
future_replay_admitted t checked first checked_again again n k seen m u ok expired after fresh =
    admitted_unseen t checked_again again n k _ m (admitted-truthy (some t) n checked first seen ok)
      (fresh_within t checked_again after fresh)
      (sweep_expires again (first + nonce_tolerance_ms) k _
        (admit-Unique (some t) n checked first seen u)
        (admitted_nonce (some t) n k checked first seen m ok) expired)
