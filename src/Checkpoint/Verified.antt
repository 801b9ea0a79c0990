-- ===== src/Checkpoint/Verified.antt =====
-- verifyCheckpoint of hub/checkpoint.mjs on what buildCheckpoint signs, and what its verdict means.
use ainumbers_helm.Checkpoint.{
  Predicate, Checkpoint, Verdict, verified, envelope_invalid, root_digest_mismatch, head_mismatch,
  stream_heads, statement_bytes, live_map, same_head, first_mismatch, root_digest, predicate_of,
  build_checkpoint, check_predicate, verify_self_consistency, against_live, verify_checkpoint,
}
use ainumbers_helm.Checkpoint.Live.{
  IsKeyed, append_all-IsKeyed, IsLive, IsLiveMap, stream_heads-IsLive, live_map-IsLiveMap,
  live_map-Found,
}
use ainumbers_helm.Envelope.{
  Signing, Keys, PublicKeys, has_alg, check_ed25519, pre_authentication, verify_envelope,
}
use ainumbers_helm.Envelope.Verified.{
  public_keys_of, Verifies, verify_envelope-emit, verify_envelope-Meaning,
}
use ainumbers_helm.Json.{Json}
use ainumbers_helm.Journal.{Head, Journal, Claimed, Request, open_journal}
use ainumbers_helm.Journal.Append.{append_all}
use ainumbers_helm.Prelude.{
  ℕ, String, true, false, Option, none, some, List, [], ◌∷◌, str_eq, str_eq→eq, str_eq_refl, find,
  All, ◌≡◌, ◌≢◌, refl, sym, ◌∙◌, ap, subst, Bool-cases, Option-cases, inl, inr, arith,
}
use ainumbers_helm.Prelude.Dict.{Dict, get}

same_head_refl :
    (current claimed : Claimed)
    → current.journal_seq ≡ claimed.journal_seq
    → current.rh ≡ claimed.rh
    → same_head (some current) claimed ≡ true
unfolding same_head
same_head_refl current claimed e f = rw (e, f, str_eq_refl claimed.rh) (ground arith)

same_head-eq :
    (current claimed : Claimed)
    → same_head (some current) claimed ≡ true
    → (current.journal_seq ≡ claimed.journal_seq) × (current.rh ≡ claimed.rh)
unfolding same_head
same_head-eq current claimed h = (ground arith, ground (arith, str_eq→eq current.rh claimed.rh))

module _ (streams : Dict Head) (live : Dict Claimed) (m : IsLiveMap streams live) where
  live-same :
      (c : Claimed)
      → IsLive streams c
      → get live c.stream_id ≢ none
      → same_head (get live c.stream_id) c ≡ true
  live-same c l f = elim (Option-cases (get live c.stream_id)) [
    | inl e ↦ absurd (f e)
    | inr (x, e) ↦
        let met = m c.stream_id x e in
        let same : some (record { seq = x.journal_seq; rh = x.rh })
            ≡ some (record { seq = c.journal_seq; rh = c.rh }) =
          sym met.0 ∙ rw met.1 l in
        let seqs : x.journal_seq ≡ c.journal_seq = cc in
        let hashes : x.rh ≡ c.rh = cc in rw e (same_head_refl x c seqs hashes)
  ]

  no_mismatch :
      (cs : List Claimed)
      → All (IsLive streams) cs
      → All (λ c. get live c.stream_id ≢ none) cs
      → first_mismatch live cs ≡ none
  unfolding first_mismatch
  no_mismatch [] l f = refl
  no_mismatch (c ∷ cs) l f = rw (live-same c l.0 f.0) (no_mismatch cs l.1 f.1)

  matched_one : (c : Claimed) → same_head (get live c.stream_id) c ≡ true → IsLive streams c
  unfolding same_head
  matched_one c h = elim (Option-cases (get live c.stream_id)) [
    | inl e ↦ cc (rw (same_head, e) at h)
    | inr (x, e) ↦
        let met = m c.stream_id x e in
        let same = same_head-eq x c (rw e at h) in rw (← met.1) (met.0 ∙ rw (same.0, same.1) refl)
  ]

  matched-IsLive : (cs : List Claimed) → first_mismatch live cs ≡ none → All (IsLive streams) cs
  unfolding first_mismatch
  matched-IsLive [] h = tt
  matched-IsLive (c ∷ cs) h = elim (Bool-cases (same_head (get live c.stream_id) c)) [
    | inr e ↦ cc (rw (first_mismatch, e) at h)
    | inl e ↦ (matched_one c e, matched-IsLive cs (rw (first_mismatch, e) at h))
  ]

live_map-of : (j : Journal) → IsKeyed j.streams → IsLiveMap j.streams (live_map [] (stream_heads j))
unfolding get
live_map-of j k =
    live_map-IsLiveMap j.streams [] (stream_heads j) (λ s c e. cc) (stream_heads-IsLive j k)

module _ (sha256_hex : List ℕ → String) (g : Signing) (read : List ℕ → Option Predicate) where
  -- Take a checkpoint of a journal that any appends to a new one have made, and verify it with the
  -- public halves of its keys before another append: verifyCheckpoint accepts it, with the heads
  -- that it signed, where the libraries verify what they sign and JSON.parse reads the payload back.
  pub verify_checkpoint-build :
      (qs : List (String × Request)) (n : ℕ) (keys : Keys g) (anchors : List Json)
      → let j = append_all sha256_hex qs open_journal in
        let p = predicate_of sha256_hex g j n anchors in
        Verifies g keys
        → read (statement_bytes p) ≡ some p
        → verify_checkpoint sha256_hex g read j
            (build_checkpoint sha256_hex g j n keys anchors)
            (public_keys_of g keys)
          ≡ verified p
  unfolding verify_checkpoint verify_self_consistency build_checkpoint predicate_of check_predicate
      open_journal
  verify_checkpoint-build qs n keys anchors v h =
      let j : Journal = append_all sha256_hex qs open_journal in
      let p : Predicate = predicate_of sha256_hex g j n anchors in
      let k : IsKeyed j.streams = append_all-IsKeyed sha256_hex qs open_journal tt in
      rw
        (
          verify_envelope-emit g read keys (statement_bytes p) p false v h,
          str_eq_refl (root_digest sha256_hex g (stream_heads j)),
          against_live,
          no_mismatch j.streams (live_map [] (stream_heads j)) (live_map-of j k) (stream_heads j)
              (stream_heads-IsLive j k) (live_map-Found [] (stream_heads j)),
        )
        refl

  against_live-Meaning :
      (j : Journal) (v : Verdict) (p : Predicate)
      → against_live sha256_hex g read j v ≡ verified p
      → (v ≡ verified p) × (first_mismatch (live_map [] (stream_heads j)) p.streams ≡ none)
  unfolding against_live
  against_live-Meaning j (verified q) p h =
      elim (Option-cases (first_mismatch (live_map [] (stream_heads j)) q.streams)) [
        | inl e ↦
            let same : q ≡ p = cc (rw (against_live, e) at h) in
            (
              ap (λ x. verified x) same,
              subst (λ x. first_mismatch (live_map [] (stream_heads j)) x.streams ≡ none) same e,
            )
        | inr (s, e) ↦ cc (rw (against_live, e) at h)
      ]
  against_live-Meaning j envelope_invalid p h = cc
  against_live-Meaning j root_digest_mismatch p h = cc
  against_live-Meaning j (head_mismatch s) p h = cc

  check_predicate-Meaning :
      (o : Option Predicate) (p : Predicate)
      → check_predicate sha256_hex g read o ≡ verified p
      → (o ≡ some p) × (root_digest sha256_hex g p.streams ≡ p.journal_root_digest)
  unfolding check_predicate
  check_predicate-Meaning none p h = cc
  check_predicate-Meaning (some q) p h =
      elim (Bool-cases (str_eq (root_digest sha256_hex g q.streams) q.journal_root_digest)) [
        | inl e ↦
            let same : q ≡ p = cc (rw (check_predicate, e) at h) in
            (
              ap (λ x. some x) same,
              subst (λ x. root_digest sha256_hex g x.streams ≡ x.journal_root_digest) same
                  (str_eq→eq _ _ e),
            )
        | inr e ↦ cc (rw (check_predicate, e) at h)
      ]

  verify_self_consistency-Meaning :
      (ck : Checkpoint) (keys : PublicKeys g) (p : Predicate)
      → verify_self_consistency sha256_hex g read ck keys ≡ verified p
      → ((verify_envelope g read false ck.envelope keys).valid ≡ true)
        × (check_predicate sha256_hex g read
              (verify_envelope g read false ck.envelope keys).statement
            ≡ verified p)
  unfolding verify_self_consistency
  verify_self_consistency-Meaning ck keys p h =
      elim (Bool-cases (verify_envelope g read false ck.envelope keys).valid) [
        | inl e ↦ (e, rw (verify_self_consistency, e) at h)
        | inr e ↦ cc (rw (verify_self_consistency, e) at h)
      ]

  -- A checkpoint that verifyCheckpoint accepts against a journal with one row for each stream: its
  -- EdDSA signature verifies, the digest that it states is that of its claims, and each claim is
  -- the live head of its stream.
  pub verify_checkpoint-Meaning :
      (j : Journal) (ck : Checkpoint) (keys : PublicKeys g) (p : Predicate)
      → IsKeyed j.streams
      → verify_checkpoint sha256_hex g read j ck keys ≡ verified p
      → let m = pre_authentication ck.envelope.payload_type ck.envelope.payload in
        (check_ed25519 g m keys (find (has_alg "EdDSA") ck.envelope.signatures) ≡ true)
        × (read ck.envelope.payload ≡ some p)
        × (root_digest sha256_hex g p.streams ≡ p.journal_root_digest)
        × All (IsLive j.streams) p.streams
  unfolding verify_checkpoint
  verify_checkpoint-Meaning j ck keys p k h =
      let live = against_live-Meaning j (verify_self_consistency sha256_hex g read ck keys) p h in
      let self = verify_self_consistency-Meaning ck keys p live.0 in
      let signed = verify_envelope-Meaning g read false ck.envelope keys self.0 in
      let stated = check_predicate-Meaning _ p self.1 in
      let a : Predicate = signed.4.0 in
      let same : a ≡ p = cc (sym signed.4.2 ∙ stated.0) in
      (
        signed.1,
        signed.4.1 ∙ ap (λ x. some x) same,
        stated.1,
        matched-IsLive j.streams (live_map [] (stream_heads j)) (live_map-of j k) p.streams live.1,
      )
