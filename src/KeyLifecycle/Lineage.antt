-- ===== src/KeyLifecycle/Lineage.antt =====
-- What a verdict of `verifyKeyLineage` (hub/key-lifecycle.mjs) says of the envelopes, against the
-- rules that the head of that file states: each link is signed by the key that it reveals, and that
-- key is the one to which the link before it committed.
use ainumbers_helm.Prelude.{
  ℕ, suc, zero, ◌≤◌, String, ◌≡◌, refl, subst, true, Option, none, some, List, [], ◌∷◌, map, length,
  str_eq→eq, All, All-keep, Bool-cases, Option-cases, arith, inl, inr,
}
use ainumbers_helm.KeyLifecycle.{
  Crypto, Envelope, Event, Rotation, Head, Ending, Reason, undecodable_inception,
  undecodable_rotation, chain_does_not_start_at_inception, inception_signature_invalid, invalid,
  fork_detected, continuous, throws, event, opt_str_eq, opt_num_eq, candidates, values, dedupe,
  commitment_of_b64, verify_signature_by_label, decode_rotations, next_head, check_rotation, walk,
  genesis, walk_rotations, after_inception, verify_key_lineage,
}
use ainumbers_helm.KeyLifecycle.Audit.{List-cases}
use ainumbers_helm.KeyLifecycle.Decoded.{
  Parsed-cases, Genuine, rotations_of, decoded-Genuine, dedupe-Genuine,
}

module _ (c : Crypto) where
  pub record Begins (e : Envelope) (v : Event) : Type 0 where
    pub read : c.parse e.payload ≡ event v
    pub is_inception : v.key_event ≡ some "inception"
    pub is_first : v.identity_seq ≡ some 0
    pub self_signed : verify_signature_by_label c e "self" v.public_key ≡ true

  -- The rules of a link after a head.
  pub record Follows (h : Head) (r : Rotation) : Type 0 where
    pub revealed : String
    pub reveals : r.event.revealed_public_key ≡ some revealed
    pub committed : h.commitment ≡ some (commitment_of_b64 c revealed)
    pub signed : verify_signature_by_label c r.envelope "revealed" (some revealed) ≡ true
    pub linked : r.event.prev_event_digest ≡ some h.digest
    pub numbered : r.event.identity_seq ≡ some (suc h.seq)

  -- The heads that the rules give from an inception by rotations among the envelopes.
  pub data Lineage (e : Envelope) (es : List Envelope) : Head → Type 0 where
    begun : (v : Event) → Begins e v → Lineage e es (genesis c e v)
    rotated :
        (h : Head) (r : Rotation)
        → Lineage e es h
        → Genuine c es r
        → Follows h r
        → Lineage e es (next_head c h r)

  opt_str_eq→some : (o : Option String) (s : String) → opt_str_eq o s ≡ true → o ≡ some s
  opt_str_eq→some none s h = cc
  opt_str_eq→some (some t) s h = let same = str_eq→eq t s h in cc

  opt_num_eq→some : (o : Option ℕ) (n : ℕ) → opt_num_eq o n ≡ true → o ≡ some n
  opt_num_eq→some none n h = cc
  opt_num_eq→some (some m) n h = let same : m ≡ n = ground arith in cc

  checked-Follows :
      (h : Head) (r : Rotation)
      → opt_str_eq r.event.prev_event_digest h.digest ≡ true
      → check_rotation c h r ≡ none
      → Follows h r
  unfolding check_rotation
  checked-Follows h r links good = elim (Option-cases r.event.revealed_public_key) [
    | inl absent ↦ absurd (ground (arith, absent))
    | inr (key, found) ↦ record {
      revealed = key;
      reveals = found;
      committed = opt_str_eq→some h.commitment (commitment_of_b64 c key) (ground (arith, found));
      signed = ground (arith, found);
      linked = opt_str_eq→some r.event.prev_event_digest h.digest links;
      numbered = opt_num_eq→some r.event.identity_seq (suc h.seq) (ground (arith, found));
    }
  ]

  candidates-link :
      (rs : List Rotation) (d : String)
      → All (λ r. opt_str_eq r.event.prev_event_digest d ≡ true) (candidates rs d)
  unfolding candidates
  candidates-link [] d = tt
  candidates-link (r ∷ rs) d = elim (Bool-cases (opt_str_eq r.event.prev_event_digest d)) [
    | inl links ↦ rw links (links, candidates-link rs d)
    | inr other ↦ rw other (candidates-link rs d)
  ]

  candidates-Genuine :
      (es : List Envelope) (rs : List Rotation) (d : String)
      → All (Genuine c es) rs
      → All (Genuine c es) (candidates rs d)
  unfolding candidates
  candidates-Genuine es rs d g = All-keep (Genuine c es) _ rs g

  -- What each verdict claims; `rs` are the distinct rotations.
  abbrev pub Meaning : Envelope → List Envelope → List Rotation → Ending → Type 0
  Meaning e es rs (continuous h) = Lineage e es h × (candidates rs h.digest ≡ [])
  Meaning e es rs (fork_detected ds h) =
      Lineage e es h
      × (ds ≡ map (λ (r : Rotation). r.digest) (candidates rs h.digest))
      × (2 ≤ length ds)
  Meaning e es rs (invalid why trail) = Unit
  Meaning e es rs throws = Unit

  check-Meaning :
      (e : Envelope) (es : List Envelope) (rs : List Rotation) (h : Head) (r : Rotation)
      (v : Ending)
      → check_rotation c h r ≡ some v
      → Meaning e es rs v
  unfolding check_rotation
  check-Meaning e es rs h r (continuous k) bad = absurd (ground arith)
  check-Meaning e es rs h r (fork_detected ds k) bad = absurd (ground arith)
  check-Meaning e es rs h r (invalid why trail) bad = tt
  check-Meaning e es rs h r throws bad = tt

  walk-Meaning :
      (e : Envelope) (es : List Envelope) (fuel : ℕ) (rs : List Rotation) (h : Head) (v : Ending)
      → All (Genuine c es) rs
      → Lineage e es h
      → walk c fuel rs h ≡ some v
      → Meaning e es rs v
  unfolding walk
  walk-Meaning e es zero rs h v g l k = cc
  walk-Meaning e es (suc fuel) rs h v g l k = elim (List-cases c (candidates rs h.digest)) [
    | inl none_left ↦
        let same : continuous h ≡ v = cc (rw (walk, none_left) at k) in
        subst (Meaning e es rs) same (l, none_left)
    | inr (inr (r, s, more, forked)) ↦
        let same : fork_detected (map (λ (x : Rotation). x.digest) (r ∷ s ∷ more)) h ≡ v =
          cc (rw (walk, forked) at k) in
        subst (Meaning e es rs) same (l, rw forked refl, omega arith)
    | inr (inl (r, one)) ↦ elim (Option-cases (check_rotation c h r)) [
      | inr (w, bad) ↦
          let same : w ≡ v = cc (rw (walk, one, bad) at k) in
          subst (Meaning e es rs) same (check-Meaning e es rs h r w bad)
      | inl good ↦
          let links = rw one at (candidates-link rs h.digest) in
          let real = rw one at (candidates-Genuine es rs h.digest g) in
          walk-Meaning e es fuel rs (next_head c h r) v g
            (rotated h r l real.0 (checked-Follows h r links.0 good)) (rw (walk, one, good) at k)
    ]
  ]

  rotations-Meaning :
      (e : Envelope) (es : List Envelope) (h : Head) (v : Ending)
      → Lineage e es h
      → walk_rotations c h (decode_rotations c es) ≡ some v
      → Meaning e es (rotations_of c es) v
  unfolding walk_rotations
  rotations-Meaning e es h v l k = elim (Option-cases (decode_rotations c es)) [
    | inl bad ↦
        let same : invalid undecodable_rotation [] ≡ v = cc (rw bad at k) in
        subst (Meaning e es (rotations_of c es)) same tt
    | inr (rs, found) ↦
        rw (rotations_of, found)
          (walk-Meaning e es (suc (length (values (dedupe [] rs)))) (values (dedupe [] rs)) h v
            (dedupe-Genuine c es [] rs tt (decoded-Genuine c es rs found)) l (rw found at k))
  ]

  invalid-Meaning :
      (e : Envelope) (es : List Envelope) (why : Reason) (v : Ending)
      → some (invalid why []) ≡ some v
      → Meaning e es (rotations_of c es) v
  invalid-Meaning e es why v k =
      let same : invalid why [] ≡ v = cc in subst (Meaning e es (rotations_of c es)) same tt

  begun-Meaning :
      (e : Envelope) (es : List Envelope) (w : Event) (v : Ending)
      → c.parse e.payload ≡ event w
      → after_inception c e es (event w) ≡ some v
      → Meaning e es (rotations_of c es) v
  unfolding after_inception
  begun-Meaning e es w v read k = elim (Bool-cases (opt_str_eq w.key_event "inception")) [
    | inr other ↦ invalid-Meaning e es chain_does_not_start_at_inception v (rw other at k)
    | inl first ↦ elim (Bool-cases (opt_num_eq w.identity_seq 0)) [
      | inr other ↦
          invalid-Meaning e es chain_does_not_start_at_inception v (rw (first, other) at k)
      | inl zeroth ↦ elim (Bool-cases (verify_signature_by_label c e "self" w.public_key)) [
        | inr other ↦
            invalid-Meaning e es inception_signature_invalid v (rw (first, zeroth, other) at k)
        | inl signed ↦
            rotations-Meaning e es (genesis c e w) v
              (begun w (record {
                read = read;
                is_inception = opt_str_eq→some w.key_event "inception" first;
                is_first = opt_num_eq→some w.identity_seq 0 zeroth;
                self_signed = signed;
              }))
              (rw (first, zeroth, signed) at k)
      ]
    ]
  ]

  -- What the audit's verdict says. `continuous`: the reported head is reached from the inception,
  -- which signed itself, by rotations among the envelopes, each linked to the one before it, numbered
  -- one higher, signed by the key that it reveals, and that key is the one committed to; and no
  -- distinct rotation links to the head. `fork_detected`: the walk came to the reported head in this
  -- way, the reported digests are those of all distinct rotations that link to it, and they are at
  -- least two.
  pub verify_key_lineage-Meaning :
      (e : Envelope) (es : List Envelope) (v : Ending)
      → verify_key_lineage c (e ∷ es) ≡ some v
      → Meaning e es (rotations_of c es) v
  unfolding verify_key_lineage
  verify_key_lineage-Meaning e es v k = elim (Parsed-cases (c.parse e.payload)) [
    | inl bad ↦
        let same : invalid undecodable_inception [] ≡ v = cc (rw (after_inception, bad) at k) in
        subst (Meaning e es (rotations_of c es)) same tt
    | inr (inl bad) ↦
        let same : throws ≡ v = cc (rw (after_inception, bad) at k) in
        subst (Meaning e es (rotations_of c es)) same tt
    | inr (inr (w, good)) ↦ begun-Meaning e es w v good (rw (after_inception, good) at k)
  ]
