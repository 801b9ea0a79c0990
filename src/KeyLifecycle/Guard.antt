-- ===== src/KeyLifecycle/Guard.antt =====
-- `assertRotationAppendable` against `verifyKeyLineage` (both hub/key-lifecycle.mjs): what the guard
-- lets pass, the audit accepts.
use ainumbers_helm.Prelude.{
  suc, String, ◌≡◌, refl, sym, ◌∙◌, subst, true, false, none, some, List, [], ◌∷◌, ◌++◌, length,
  str_eq, Bool-cases, Option-cases, All, arith, inl, inr,
}
use ainumbers_helm.Prelude.Dict.{Dict, get, set, get-set}
use ainumbers_helm.KeyLifecycle.{
  Crypto, Envelope, Event, Rotation, Head, continuous, event, opt_str_eq, opt_num_eq, candidates,
  values, dedupe, event_digest, verify_signature_by_label, decode_rotations, next_head,
  check_rotation, genesis, walk_rotations, after_inception, verify_key_lineage,
  assert_rotation_appendable, guard_parsed, guard_event,
}
use ainumbers_helm.KeyLifecycle.Decoded.{Parsed-cases, Decoded-uncons, rotation_of, rotations_of}
use ainumbers_helm.KeyLifecycle.Extended.{walk-extended, set-absent, dedupe-append, length-snoc}

module _ (c : Crypto) where
  guarded :
      (h : Head) (x : Envelope) (v : Event)
      → assert_rotation_appendable c h x ≡ none
      → c.parse x.payload ≡ event v
      → let r : Rotation = record { envelope = x; event = v; digest = event_digest c x } in
        (opt_str_eq v.prev_event_digest h.digest ≡ true) × (check_rotation c h r ≡ none)
  unfolding guard_event check_rotation assert_rotation_appendable
  guarded h x v k read =
      let passed : guard_event c h x v ≡ none =
        rw (assert_rotation_appendable, guard_parsed, read) at k in
      (ground (arith, passed), ground (arith, passed))

  guard_reads :
      (h : Head) (x : Envelope)
      → assert_rotation_appendable c h x ≡ none
      → (v : Event) × (c.parse x.payload ≡ event v)
  unfolding assert_rotation_appendable guard_parsed
  guard_reads h x k = elim (Parsed-cases (c.parse x.payload)) [
    | inl bad ↦ cc (rw (assert_rotation_appendable, bad) at k)
    | inr (inl bad) ↦ cc (rw (assert_rotation_appendable, bad) at k)
    | inr (inr found) ↦ found
  ]

  decoded-append :
      (es : List Envelope) (x : Envelope) (v : Event) (rs : List Rotation)
      → c.parse x.payload ≡ event v
      → decode_rotations c es ≡ some rs
      → decode_rotations c (es ++ x ∷ [])
        ≡ some (rs ++ record { envelope = x; event = v; digest = event_digest c x } ∷ [])
  unfolding decode_rotations
  decoded-append [] x v rs read k =
      let none_yet : [] ≡ rs = cc in
      rw (decode_rotations, read)
        (subst (λ ys. some (rotation_of c x v ∷ []) ≡ some (ys ++ rotation_of c x v ∷ [])) none_yet
          refl)
  decoded-append (e ∷ es) x v rs read k =
      let d = Decoded-uncons c e es rs k in
      rw (decode_rotations, d.read, decoded-append es x v d.more read d.rest, d.made) refl

  dedupe-absent :
      (d : Dict Rotation) (rs : List Rotation) (k : String)
      → get d k ≡ none
      → All (λ r. str_eq r.digest k ≡ false) rs
      → get (dedupe d rs) k ≡ none
  unfolding dedupe
  dedupe-absent d [] k h f = h
  dedupe-absent d (r ∷ rs) k h f = dedupe-absent (set d r.digest r) rs k (rw (get-set, f.0) h) f.1

  decoded-differ :
      (es : List Envelope) (rs : List Rotation) (d : String)
      → decode_rotations c es ≡ some rs
      → All (λ y. str_eq (event_digest c y) d ≡ false) es
      → All (λ r. str_eq r.digest d ≡ false) rs
  unfolding decode_rotations
  decoded-differ [] rs d k f =
      let none_yet : [] ≡ rs = cc in subst (All (λ r. str_eq r.digest d ≡ false)) none_yet tt
  decoded-differ (e ∷ es) rs d k f =
      let u = Decoded-uncons c e es rs k in rw (u.made) (f.0, decoded-differ es u.more d u.rest f.1)

  -- After a continuous audit, any other rotations lead to the same walk from the same inception.
  same_inception :
      (e : Envelope) (es : List Envelope) (last : Head)
      → verify_key_lineage c (e ∷ es) ≡ some (continuous last)
      → (h : Head) × ((more : List Envelope)
          → verify_key_lineage c (e ∷ more) ≡ walk_rotations c h (decode_rotations c more))
  unfolding verify_key_lineage after_inception
  same_inception e es last k = elim (Parsed-cases (c.parse e.payload)) [
    | inl bad ↦ absurd (cc (rw (verify_key_lineage, after_inception, bad) at k))
    | inr (inl bad) ↦ absurd (cc (rw (verify_key_lineage, after_inception, bad) at k))
    | inr (inr (v, read)) ↦ elim (Bool-cases (opt_str_eq v.key_event "inception")) [
      | inr other ↦ absurd (cc (rw (verify_key_lineage, after_inception, read, other) at k))
      | inl first ↦ elim (Bool-cases (opt_num_eq v.identity_seq 0)) [
        | inr other ↦
            absurd (cc (rw (verify_key_lineage, after_inception, read, first, other) at k))
        | inl zeroth ↦ elim (Bool-cases (verify_signature_by_label c e "self" v.public_key)) [
          | inr other ↦
              absurd
                (cc (rw (verify_key_lineage, after_inception, read, first, zeroth, other) at k))
          | inl signed ↦ (
            genesis c e v,
            λ more. rw (verify_key_lineage, after_inception, read, first, zeroth, signed) refl,
          )
        ]
      ]
    ]
  ]

  -- Let the audit of a history be continuous up to a head, let the guard let a rotation pass at that
  -- head, let no rotation of the history have the digest of the new one, and no rotation, the new one
  -- included, link to the new one. Then the audit of the history with the new rotation at its end is
  -- continuous up to the head that the new rotation gives: its digest, its commitment, its key, the
  -- next sequence number, the trail longer by it.
  pub guard_keeps_audit :
      (e : Envelope) (es : List Envelope) (x : Envelope) (h : Head)
      → verify_key_lineage c (e ∷ es) ≡ some (continuous h)
      → assert_rotation_appendable c h x ≡ none
      → All (λ y. str_eq (event_digest c y) (event_digest c x) ≡ false) es
      → candidates (rotations_of c (es ++ x ∷ [])) (event_digest c x) ≡ []
      → (v : Event) × (c.parse x.payload ≡ event v)
        × (verify_key_lineage c (e ∷ (es ++ x ∷ []))
            ≡ some (
                continuous
                  (next_head c h (record { envelope = x; event = v; digest = event_digest c x }))))
  unfolding walk_rotations get
  guard_keeps_audit e es x h k passed new unlinked =
      let (g, walked) = same_inception e es h k in
      let (v, read) = guard_reads h x passed in
      let (links, good) = guarded h x v passed read in
      let seen : walk_rotations c g (decode_rotations c es) ≡ some (continuous h) =
        sym (walked es) ∙ k in
      elim (Option-cases (decode_rotations c es)) [
        | inl bad ↦ absurd (cc (rw bad at seen))
        | inr (rs, found) ↦
            let absent =
              dedupe-absent [] rs (event_digest c x) refl (decoded-differ es rs _ found new) in
            let both = decoded-append es x v rs read found in
            let grown : values (dedupe [] (rs ++ rotation_of c x v ∷ []))
                ≡ values (dedupe [] rs) ++ rotation_of c x v ∷ [] =
              rw dedupe-append
                (set-absent (dedupe [] rs) (event_digest c x) (rotation_of c x v) absent) in
            let vs = values (dedupe [] rs) in
            let fresh = rw grown at (rw (rotations_of, both) at unlinked) in
            (
              v,
              read,
              walked (es ++ x ∷ [])
                  ∙ rw (both, grown, length-snoc)
                      (walk-extended c (suc (length vs)) vs g h (rotation_of c x v)
                        (rw found at seen) links good fresh),
            )
      ]
