-- ===== src/Journal/Chain.antt =====
-- What a journal is to satisfy, said of each stream by itself, and that `replayVerify` of
-- hub/journal.mjs decides it.
use ainumbers_helm.Prelude.{
  false, ap, ◌↔◌, ◌≢◌, ◌++◌, ℕ, String, ◌≡◌, refl, sym, inl, inr, List, [], ◌∷◌, subst, str_eq,
  eq_iff, str_eq→eq, str_eq_refl, if◌then◌else◌, keep, Bool-cases, arith,
}
use ainumbers_helm.Prelude.Dict.{Dict, get, set, get-set}
use ainumbers_helm.Journal.{
  Journal, Verdict, broken, stream_seed, replay_verify, Row, ok, link, rh_or_seed, replay_loop,
}

abbrev pub of_stream : String → List Row → List Row
of_stream s rows = keep (λ r. str_eq r.stream_id s) rows

module _ (sha256_hex : List ℕ → String) where
  -- rh_n = SHA-256(rh_{n-1} || stream_id || journal_seq || entry_digest), from `prev` on.
  abbrev pub StreamChain : String → String → List Row → Type 0
  StreamChain s prev [] = Unit
  StreamChain s prev (r ∷ rs) =
      (r.rh ≡ link sha256_hex prev s r.seq r.entry_digest) × StreamChain s r.rh rs

  -- Every stream of the rows is a chain from the head that `heads` has for it.
  abbrev pub IsChainedFrom : Dict String → List Row → Type 0
  IsChainedFrom heads rows =
      (s : String) → StreamChain s (rh_or_seed sha256_hex (get heads s) s) (of_stream s rows)

  next_rh : Dict String → Row → String
  next_rh heads r =
      link sha256_hex (rh_or_seed sha256_hex (get heads r.stream_id) r.stream_id) r.stream_id r.seq
        r.entry_digest

  head_after :
      (heads : Dict String) (k e s : String)
      → rh_or_seed sha256_hex (get (set heads k e) s) s
        ≡ (if str_eq k s then e else rh_or_seed sha256_hex (get heads s) s)
  unfolding rh_or_seed
  head_after heads k e s = rw get-set (ground arith)

  chain-cons :
      (heads : Dict String) (r : Row) (rs : List Row) (s : String)
      → r.rh ≡ next_rh heads r
      → StreamChain s
          (if str_eq r.stream_id s then r.rh else rh_or_seed sha256_hex (get heads s) s)
          (of_stream s rs)
      → StreamChain s (rh_or_seed sha256_hex (get heads s) s) (of_stream s (r ∷ rs))
  unfolding next_rh
  chain-cons heads r rs s e h = elim (Bool-cases (str_eq r.stream_id s)) [
    | inl same ↦ rw same (
      subst
          (λ x.
            r.rh ≡ link sha256_hex (rh_or_seed sha256_hex (get heads x) x) x r.seq r.entry_digest)
          (str_eq→eq r.stream_id s same) e,
      rw same at h,
    )
    | inr other ↦ rw other (rw other at h)
  ]

  chain-uncons :
      (heads : Dict String) (r : Row) (rs : List Row)
      → IsChainedFrom heads (r ∷ rs)
      → (next_rh heads r ≡ r.rh) × IsChainedFrom (set heads r.stream_id (next_rh heads r)) rs
  unfolding next_rh
  chain-uncons heads r rs h = (here, rest)
    where
      at_self :
          StreamChain r.stream_id
            (rh_or_seed sha256_hex (get heads r.stream_id) r.stream_id)
            (r ∷ of_stream r.stream_id rs)
      at_self =
          let k : StreamChain r.stream_id
              (rh_or_seed sha256_hex (get heads r.stream_id) r.stream_id)
              (of_stream r.stream_id (r ∷ rs)) =
            h r.stream_id in
          rw (str_eq_refl r.stream_id) at k

      here : next_rh heads r ≡ r.rh
      here = sym at_self.0

      rest : IsChainedFrom (set heads r.stream_id (next_rh heads r)) rs
      rest s = rw head_after (elim (Bool-cases (str_eq r.stream_id s)) [
        | inl same ↦
            rw (same, here)
              (subst (λ x. StreamChain x r.rh (of_stream x rs)) (str_eq→eq r.stream_id s same)
                at_self.1)
        | inr other ↦ rw other (rw other at (h s))
      ])

  replay_loop-IsChainedFrom :
      (heads : Dict String) (rows : List Row)
      → replay_loop sha256_hex heads rows ≡ ok
      → IsChainedFrom heads rows
  unfolding replay_loop next_rh
  replay_loop-IsChainedFrom heads [] h s = tt
  replay_loop-IsChainedFrom heads (r ∷ rs) h s = elim (Bool-cases (str_eq (next_rh heads r) r.rh)) [
    | inl good ↦ chain-cons heads r rs s (sym (str_eq→eq (next_rh heads r) r.rh good)) (
        rw (head_after, str_eq→eq (next_rh heads r) r.rh good) at
          (replay_loop-IsChainedFrom (set heads r.stream_id (next_rh heads r)) rs (rw good at h) s))
    | inr bad ↦ cc (rw bad at h)
  ]

  IsChainedFrom-replay_loop :
      (heads : Dict String) (rows : List Row)
      → IsChainedFrom heads rows
      → replay_loop sha256_hex heads rows ≡ ok
  unfolding replay_loop next_rh
  IsChainedFrom-replay_loop heads [] h = refl
  IsChainedFrom-replay_loop heads (r ∷ rs) h =
      let (here, rest) = chain-uncons heads r rs h in
      rw ((eq_iff (next_rh heads r) r.rh).1 here)
        (IsChainedFrom-replay_loop (set heads r.stream_id (next_rh heads r)) rs rest)

  -- Every stream of the rows is a chain from its seed.
  abbrev pub IsChained : List Row → Type 0
  IsChained rows = (s : String) → StreamChain s (stream_seed sha256_hex s) (of_stream s rows)

  -- `replayVerify` accepts a journal exactly when, for each stream taken by itself, every row's
  -- stored hash is the hash of the one before it (the stream's seed at first), the stream, the
  -- row's own sequence number and its entry digest.
  pub replay_verify_iff : (j : Journal) → (replay_verify sha256_hex j ≡ ok) ↔ IsChained j.rows
  unfolding replay_verify rh_or_seed get
  replay_verify_iff j =
      (replay_loop-IsChainedFrom [] j.rows, λ h. IsChainedFrom-replay_loop [] j.rows h)

  -- What a refusal says: the rows split at the reported row, those before it are chained, they are
  -- not with the reported row, and its stored hash differs from the expected one.
  pub record FirstBroken (heads : Dict String) (rows : List Row) (v : Verdict) : Type 0 where
    pub before : List Row
    pub row : Row
    pub after : List Row
    pub expected : String
    pub split : rows ≡ before ++ row ∷ after
    pub chained : IsChainedFrom heads before
    pub unchained : ¬ IsChainedFrom heads (before ++ row ∷ [])
    pub reported : v ≡ broken row.seq row.stream_id expected row.rh
    pub differs : expected ≢ row.rh

  not_equal : (a b : String) → str_eq a b ≡ false → a ≢ b
  not_equal a b h e = cc ((eq_iff a b).1 e)

  FirstBroken-cons :
      (heads : Dict String) (r : Row) (rs : List Row) (v : Verdict)
      → next_rh heads r ≡ r.rh
      → FirstBroken (set heads r.stream_id (next_rh heads r)) rs v
      → FirstBroken heads (r ∷ rs) v
  unfolding next_rh
  FirstBroken-cons heads r rs v here b = record {
    before = r ∷ b.before;
    row = b.row;
    after = b.after;
    expected = b.expected;
    split = ap (λ xs. r ∷ xs) b.split;
    chained =
        λ s. chain-cons heads r b.before s (sym here) (rw (head_after, here) at (b.chained s));
    unchained = λ c. b.unchained (chain-uncons heads r (b.before ++ b.row ∷ []) c).1;
    reported = b.reported;
    differs = b.differs;
  }

  FirstBroken-loop :
      (heads : Dict String) (rows : List Row)
      → replay_loop sha256_hex heads rows ≢ ok
      → FirstBroken heads rows (replay_loop sha256_hex heads rows)
  unfolding replay_loop next_rh
  FirstBroken-loop heads [] h = absurd (h refl)
  FirstBroken-loop heads (r ∷ rs) h = elim (Bool-cases (str_eq (next_rh heads r) r.rh)) [
    | inl good ↦ rw good (
        FirstBroken-cons heads r rs _ (str_eq→eq (next_rh heads r) r.rh good)
          (FirstBroken-loop (set heads r.stream_id (next_rh heads r)) rs (rw good at h)))
    | inr bad ↦ rw bad (record {
      before = [];
      row = r;
      after = rs;
      expected = next_rh heads r;
      split = refl;
      chained = λ s. tt;
      unchained = λ c. not_equal _ _ bad (chain-uncons heads r [] c).0;
      reported = refl;
      differs = not_equal _ _ bad;
    })
  ]

  -- If `replayVerify` does not accept a journal, it reports a row of it such that the rows before
  -- it are chained from the seeds and are not any more with it, with the row's own sequence
  -- number, stream and stored hash, and an expected hash that differs from the stored one.
  pub replay_verify-FirstBroken :
      (j : Journal)
      → replay_verify sha256_hex j ≢ ok
      → FirstBroken [] j.rows (replay_verify sha256_hex j)
  unfolding replay_verify
  replay_verify-FirstBroken j = FirstBroken-loop [] j.rows
