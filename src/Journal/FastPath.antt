-- ===== src/Journal/FastPath.antt =====
-- `replayVerifyFrom` of hub/journal.mjs, the check that a boot makes from its last checkpoint.
use ainumbers_helm.Prelude.{
  ℕ, ◌≤◌, ◌<◌, String, ◌≡◌, ◌≢◌, refl, ◌∙◌, Bool, true, false, none, some, List, [], ◌∷◌, ◌++◌, ltb,
  eq_iff, keep, All, arith,
}
use ainumbers_helm.Prelude.Dict.{Dict, get}
use ainumbers_helm.Journal.{
  Row, Claimed, Journal, ok, link, rh_or_seed, floor_seq, claimed_heads, replay_loop, replay_verify,
  replay_verify_from,
}
use ainumbers_helm.Journal.Chain.{of_stream}
use ainumbers_helm.Journal.Append.{last_head, rh_of}
use ainumbers_helm.Journal.Tamper.{stored_rh}

keep_none :
    (p : Row → Bool) (xs ys : List Row) → All (λ r. p r ≡ false) xs → keep p (xs ++ ys) ≡ keep p ys
keep_none p [] ys h = refl
keep_none p (x ∷ xs) ys h = rw h.0 (keep_none p xs ys h.1)

-- the rows up to the floor
below_floor :
    (n : ℕ) (rows : List Row) → All (λ r. r.seq ≤ n) rows → All (λ r. ltb n r.seq ≡ false) rows
below_floor n [] h = tt
below_floor n (r ∷ rs) h = (ground arith, below_floor n rs h.1)

module _ (sha256_hex : List ℕ → String) where
  first_row_ok :
      (heads : Dict String) (r : Row) (rs : List Row)
      → replay_loop sha256_hex heads (r ∷ rs) ≡ ok
      → link sha256_hex
          (rh_or_seed sha256_hex (get heads r.stream_id) r.stream_id)
          r.stream_id
          r.seq
          r.entry_digest
        ≡ r.rh
  unfolding replay_loop
  first_row_ok heads r rs h = ground (
    arith,
    eq_iff
        (link sha256_hex (rh_or_seed sha256_hex (get heads r.stream_id) r.stream_id) r.stream_id
          r.seq r.entry_digest)
        r.rh,
  )

  pub after_floor :
      (j : Journal) (cs : List Claimed) (xs ys : List Row)
      → j.rows ≡ xs ++ ys
      → All (λ x. x.seq ≤ floor_seq cs) xs
      → keep (λ r. ltb (floor_seq cs) r.seq) j.rows ≡ keep (λ r. ltb (floor_seq cs) r.seq) ys
  after_floor j cs xs ys e below =
      rw e (keep_none (λ r. ltb (floor_seq cs) r.seq) xs ys (below_floor (floor_seq cs) xs below))

  -- The checkpoint's head is taken for the hash before the first row above the floor, also where the
  -- head is that row itself or a later one.
  accepted_collides :
      (j : Journal) (cs : List Claimed) (xs ys : List Row) (r : Row) (rh : String)
      → replay_verify sha256_hex j ≡ ok
      → j.rows ≡ xs ++ r ∷ ys
      → All (λ x. x.seq ≤ floor_seq cs) xs
      → floor_seq cs < r.seq
      → get (claimed_heads [] cs) r.stream_id ≡ some rh
      → replay_verify_from sha256_hex j cs ≡ ok
      → link sha256_hex rh r.stream_id r.seq r.entry_digest
        ≡ link sha256_hex
            (rh_of sha256_hex (last_head none (of_stream r.stream_id xs)) r.stream_id)
            r.stream_id
            r.seq
            r.entry_digest
  unfolding replay_verify_from
  accepted_collides j cs xs ys r rh full e below above claimed fast =
      let passes : ltb (floor_seq cs) r.seq ≡ true = ground arith in
      let seen = rw (after_floor j cs xs (r ∷ ys) e below, passes) at fast in
      let first =
        first_row_ok (claimed_heads [] cs) r (keep (λ x. ltb (floor_seq cs) x.seq) ys) seen in
      let head : rh_or_seed sha256_hex (get (claimed_heads [] cs) r.stream_id) r.stream_id ≡ rh =
        unfold rh_or_seed in rw claimed in
      let started : link sha256_hex rh r.stream_id r.seq r.entry_digest ≡ r.rh = rw head at first in
      started ∙ stored_rh sha256_hex j xs ys r full e

  -- A false alarm. Let a full replay accept the journal, the rows at or below the floor be followed by
  -- a row of a stream that the checkpoint has with head `rh`, and let `rh` and the hash that stands
  -- before that row in its stream give different SHA-256 values, hashed with the row. Then the replay
  -- from the checkpoint does not accept the journal.
  pub fast_path_false_alarm :
      (j : Journal) (cs : List Claimed) (xs ys : List Row) (r : Row) (rh : String)
      → replay_verify sha256_hex j ≡ ok
      → j.rows ≡ xs ++ r ∷ ys
      → All (λ x. x.seq ≤ floor_seq cs) xs
      → floor_seq cs < r.seq
      → get (claimed_heads [] cs) r.stream_id ≡ some rh
      → link sha256_hex rh r.stream_id r.seq r.entry_digest
        ≢ link sha256_hex
            (rh_of sha256_hex (last_head none (of_stream r.stream_id xs)) r.stream_id)
            r.stream_id
            r.seq
            r.entry_digest
      → replay_verify_from sha256_hex j cs ≢ ok
  fast_path_false_alarm j cs xs ys r rh full e below above claimed differ fast =
      differ (accepted_collides j cs xs ys r rh full e below above claimed fast)
