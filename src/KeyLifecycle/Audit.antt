-- ===== src/KeyLifecycle/Audit.antt =====
-- `verifyKeyLineage` of hub/key-lifecycle.mjs: that its loop ends, and what a verdict means.
use ainumbers_helm.Prelude.{
  ℕ, suc, zero, ◌+◌, ◌≤◌, ◌<◌, String, ◌≡◌, refl, sym, subst, true, Option, none, some, List, [],
  ◌∷◌, map, length, ltb, if◌then◌else◌, Bool-cases, Option-cases, arith, inl, inr, ◌⊎◌,
}
use ainumbers_helm.KeyLifecycle.{
  Crypto, Envelope, Rotation, Head, Ending, fork_detected, continuous, Parsed, unreadable,
  json_null, event, opt_str_eq, opt_num_eq, candidates, values, dedupe, verify_signature_by_label,
  decode_rotations, next_head, check_rotation, walk, genesis, walk_rotations, after_inception,
  verify_key_lineage,
}

-- How many rotations have a sequence number above the head's.
seq_above : ℕ → Option ℕ → ℕ
seq_above n none = 0
seq_above n (some m) = if ltb n m then 1 else 0

above : ℕ → List Rotation → ℕ
unfolding seq_above
above n [] = 0
above n (r ∷ rs) = seq_above n r.event.identity_seq + above n rs

above-length : (n : ℕ) (rs : List Rotation) → above n rs ≤ length rs
unfolding above seq_above
above-length n [] = omega arith
above-length n (r ∷ rs) = ground (arith, above-length n rs)

seq_above-suc : (n : ℕ) (s : Option ℕ) → seq_above (suc n) s ≤ seq_above n s
unfolding seq_above
seq_above-suc n none = omega arith
seq_above-suc n (some m) = ground arith

above-suc : (n : ℕ) (rs : List Rotation) → above (suc n) rs ≤ above n rs
unfolding above
above-suc n [] = omega arith
above-suc n (r ∷ rs) = omega (arith, seq_above-suc n r.event.identity_seq, above-suc n rs)

seq_above_self :
    (n : ℕ) (s : Option ℕ) → opt_num_eq s (suc n) ≡ true → seq_above (suc n) s < seq_above n s
unfolding seq_above
seq_above_self n none h = cc
seq_above_self n (some m) h = ground arith

-- A round that goes on leaves fewer of them.
above-falls :
    (n : ℕ) (rs : List Rotation) (d : String) (r : Rotation) (more : List Rotation)
    → candidates rs d ≡ r ∷ more
    → opt_num_eq r.event.identity_seq (suc n) ≡ true
    → above (suc n) rs < above n rs
unfolding above candidates
above-falls n [] d r more h k = cc
above-falls n (x ∷ xs) d r more h k = elim (Bool-cases (opt_str_eq x.event.prev_event_digest d)) [
  | inl links ↦
      let taken : x ∷ candidates xs d ≡ r ∷ more = rw links at h in
      let same : x ≡ r = cc in
      let self =
        seq_above_self n x.event.identity_seq
          (subst (λ y. opt_num_eq y.event.identity_seq (suc n) ≡ true) (sym same) k) in
      omega (arith, self, above-suc n xs)
  | inr other ↦
      let rest = above-falls n xs d r more (rw other at h) k in
      omega (arith, rest, seq_above-suc n x.event.identity_seq)
]

module _ (c : Crypto) where
  checked_seq :
      (h : Head) (r : Rotation)
      → check_rotation c h r ≡ none
      → opt_num_eq r.event.identity_seq (suc h.seq) ≡ true
  unfolding check_rotation
  checked_seq h r k = ground arith

  pub List-cases :
      (xs : List Rotation)
      → (xs ≡ [])
        ⊎ ((r : Rotation) × (xs ≡ r ∷ []))
        ⊎ ((r : Rotation) × (s : Rotation) × (more : List Rotation) × (xs ≡ r ∷ s ∷ more))
  List-cases [] = inl refl
  List-cases (r ∷ []) = inr (inl (r, refl))
  List-cases (r ∷ s ∷ more) = inr (inr (r, s, more, refl))

  walk_ends :
      (fuel : ℕ) (rs : List Rotation) (h : Head)
      → above h.seq rs < fuel
      → (v : Ending) × (walk c fuel rs h ≡ some v)
  unfolding walk next_head
  walk_ends zero rs h k = absurd (omega arith)
  walk_ends (suc fuel) rs h k = elim (List-cases (candidates rs h.digest)) [
    | inl none_left ↦ (continuous h, rw (walk, none_left) refl)
    | inr (inr (r, s, more, forked)) ↦
        (fork_detected (map (λ (x : Rotation). x.digest) (r ∷ s ∷ more)) h, rw (walk, forked) refl)
    | inr (inl (r, one)) ↦ elim (Option-cases (check_rotation c h r)) [
      | inr (v, bad) ↦ (v, rw (walk, one, bad) refl)
      | inl good ↦
          let falls = above-falls h.seq rs h.digest r [] one (checked_seq h r good) in
          let (v, e) = walk_ends fuel rs (next_head c h r) (omega (arith, falls)) in
          (v, rw (walk, one, good) e)
    ]
  ]

  rotations_end :
      (h : Head) (o : Option (List Rotation)) → (v : Ending) × (walk_rotations c h o ≡ some v)
  unfolding walk_rotations
  rotations_end h none = (_, refl)
  rotations_end h (some rs) =
      walk_ends (suc (length (values (dedupe [] rs)))) (values (dedupe [] rs)) h
        (omega (arith, above-length h.seq (values (dedupe [] rs))))

  inception_ends :
      (e : Envelope) (es : List Envelope) (p : Parsed)
      → (v : Ending) × (after_inception c e es p ≡ some v)
  unfolding after_inception
  inception_ends e es unreadable = (_, refl)
  inception_ends e es json_null = (_, refl)
  inception_ends e es (event v) = elim (Bool-cases (opt_str_eq v.key_event "inception")) [
    | inr other ↦ rw other (_, refl)
    | inl first ↦ elim (Bool-cases (opt_num_eq v.identity_seq 0)) [
      | inr other ↦ rw (first, other) (_, refl)
      | inl zeroth ↦ elim (Bool-cases (verify_signature_by_label c e "self" v.public_key)) [
        | inr other ↦ rw (first, zeroth, other) (_, refl)
        | inl signed ↦
            rw (first, zeroth, signed) (rotations_end (genesis c e v) (decode_rotations c es))
      ]
    ]
  ]

  -- The audit always ends, with a verdict or with the TypeError that the code throws: the rounds of
  -- its endless loop are at most one more than the distinct rotations, since each goes on with a
  -- greater sequence number.
  pub verify_key_lineage_ends :
      (es : List Envelope) → (v : Ending) × (verify_key_lineage c es ≡ some v)
  unfolding verify_key_lineage
  verify_key_lineage_ends [] = (_, refl)
  verify_key_lineage_ends (e ∷ es) = inception_ends e es (c.parse e.payload)
