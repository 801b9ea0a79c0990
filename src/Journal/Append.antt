-- ===== src/Journal/Append.antt =====
-- `appendEntry` of hub/journal.mjs keeps a journal that `replayVerify` accepts.
use ainumbers_helm.Prelude.{
  keep-append, ℕ, suc, ◌<◌, String, ◌≡◌, refl, subst, Option, none, some, List, [], ◌∷◌, ◌++◌,
  str_eq, str_eq→eq, All, All-append, Bool-cases, Option-cases, arith, inl, inr,
}
use mathlib.Core.List.{append-nil}
use ainumbers_helm.Prelude.Dict.{get, set, get-set}
use ainumbers_helm.Journal.{
  Row, Head, Journal, Request, Appended, Outcome, done, thrown, ok, open_journal, update_rh, link,
  full_entry, record_digest, stream_seed, head_rh, insert_row, append_entry, assert_art12,
  replay_verify,
}
use ainumbers_helm.Journal.Chain.{of_stream, StreamChain, IsChained, replay_verify_iff}

abbrev pub last_head : Option Head → List Row → Option Head
last_head h [] = h
last_head h (r ∷ rs) = last_head (some (record { seq = r.seq; rh = r.rh })) rs

last_head-snoc :
    (h : Option Head) (xs : List Row) (r : Row)
    → last_head h (xs ++ r ∷ []) ≡ some (record { seq = r.seq; rh = r.rh })
last_head-snoc h [] r = refl
last_head-snoc h (x ∷ xs) r = last_head-snoc (some (record { seq = x.seq; rh = x.rh })) xs r

-- The row that the transaction inserts has its hash after it, and no other row is touched.
update_rh-snoc :
    (n : ℕ) (rh : String) (rows : List Row) (r : Row)
    → All (λ x. x.seq < n) rows
    → r.seq ≡ n
    → update_rh n rh (rows ++ r ∷ []) ≡ rows ++ record r { rh = rh } ∷ []
unfolding update_rh
update_rh-snoc n rh [] r h e = ground arith
update_rh-snoc n rh (x ∷ xs) r h e = ground (arith, update_rh-snoc n rh xs r h.1 e)

All-lt_suc : (n : ℕ) (rows : List Row) → All (λ x. x.seq < n) rows → All (λ x. x.seq < suc n) rows
All-lt_suc n [] h = tt
All-lt_suc n (x ∷ xs) h = (omega arith, All-lt_suc n xs h.1)

-- Sequence numbers grow along the table.
abbrev pub Increasing : List Row → Type 0
Increasing [] = Unit
Increasing (r ∷ rs) = All (λ x. r.seq < x.seq) rs × Increasing rs

All-snoc_lt :
    (n : ℕ) (rows : List Row) (r : Row)
    → Increasing rows
    → All (λ x. x.seq < n) rows
    → r.seq ≡ n
    → Increasing (rows ++ r ∷ [])
All-snoc_lt n [] r i h e = omega arith
All-snoc_lt n (x ∷ xs) r i h e =
    (All-append (λ y. x.seq < y.seq) xs (r ∷ []) i.0 (omega arith), All-snoc_lt n xs r i.1 h.1 e)

module _ (sha256_hex : List ℕ → String) where
  abbrev pub rh_of : Option Head → String → String
  rh_of none s = stream_seed sha256_hex s
  rh_of (some h) s = h.rh

  chain-snoc :
      (s : String) (h : Option Head) (rows : List Row) (r : Row)
      → StreamChain sha256_hex s (rh_of h s) rows
      → r.rh ≡ link sha256_hex (rh_of (last_head h rows) s) s r.seq r.entry_digest
      → StreamChain sha256_hex s (rh_of h s) (rows ++ r ∷ [])
  chain-snoc s h [] r c e = (e, tt)
  chain-snoc s h (x ∷ xs) r c e =
      (c.0, chain-snoc s (some (record { seq = x.seq; rh = x.rh })) xs r c.1 e)

  -- What holds of the two tables between two appends.
  pub record IsSound (j : Journal) : Type 0 where
    pub below : All (λ r. r.seq < j.next_seq) j.rows
    pub increasing : Increasing j.rows
    pub chained : IsChained sha256_hex j.rows
    pub heads : (s : String) → get j.streams s ≡ last_head none (of_stream s j.rows)

  pub open_journal-IsSound : IsSound open_journal
  unfolding open_journal get
  open_journal-IsSound = record {
    below = tt;
    increasing = tt;
    chained = λ s. tt;
    heads = λ s. refl;
  }

  head_rh-eq : (h : Option Head) (s : String) → head_rh sha256_hex h s ≡ rh_of h s
  unfolding head_rh
  head_rh-eq none s = refl
  head_rh-eq (some h) s = refl

  -- The row that `appendEntry` leaves in the table.
  abbrev pub new_row : String → Request → Journal → Row
  new_row now q j = record {
    seq = j.next_seq;
    stream_id = q.stream_id;
    kind = q.kind;
    run_id = q.run_id;
    entry_json = full_entry q;
    entry_digest = record_digest sha256_hex (full_entry q);
    rh =
        link sha256_hex (head_rh sha256_hex (get j.streams q.stream_id) q.stream_id) q.stream_id
          j.next_seq (record_digest sha256_hex (full_entry q));
    created_at = now;
  }

  -- The rows after an append are the rows before it with the new row at the end.
  pub rows-insert_row :
      (now : String) (q : Request) (j : Journal)
      → IsSound j
      → (insert_row sha256_hex now q j).0.rows ≡ j.rows ++ new_row now q j ∷ []
  unfolding insert_row
  rows-insert_row now q j h = update_rh-snoc j.next_seq _ j.rows _ h.below refl

  IsChained-snoc :
      (r : Row) (j : Journal)
      → IsSound j
      → r.rh
        ≡ link sha256_hex
            (rh_of (get j.streams r.stream_id) r.stream_id)
            r.stream_id
            r.seq
            r.entry_digest
      → IsChained sha256_hex (j.rows ++ r ∷ [])
  IsChained-snoc r j h e s = rw keep-append (elim (Bool-cases (str_eq r.stream_id s)) [
    | inl same ↦ rw same (
        chain-snoc s none (of_stream s j.rows) r (h.chained s) (
          rw (← h.heads s) (
            subst (λ x. r.rh ≡ link sha256_hex (rh_of (get j.streams x) x) x r.seq r.entry_digest)
              (str_eq→eq r.stream_id s same) e)))
    | inr other ↦ rw (other, append-nil) (h.chained s)
  ])

  heads-snoc :
      (r : Row) (j : Journal) (s : String)
      → IsSound j
      → get (set j.streams r.stream_id (record { seq = r.seq; rh = r.rh })) s
        ≡ last_head none (of_stream s (j.rows ++ r ∷ []))
  heads-snoc r j s h =
      rw (get-set, keep-append)
        (elim (Bool-cases (str_eq r.stream_id s)) [
          | inl same ↦ rw (same, last_head-snoc)
          | inr other ↦ rw (other, append-nil) (h.heads s)
        ])

  pub insert_row-IsSound :
      (now : String) (q : Request) (j : Journal)
      → IsSound j
      → IsSound (insert_row sha256_hex now q j).0
  insert_row-IsSound now q j h = record {
    below = rw (rows-insert_row now q j h) (
        unfold insert_row in
        All-append (λ r. r.seq < suc j.next_seq) j.rows _ (All-lt_suc j.next_seq j.rows h.below)
          (omega arith));
    increasing =
        rw (rows-insert_row now q j h)
          (All-snoc_lt j.next_seq j.rows (new_row now q j) h.increasing h.below refl);
    chained = rw (rows-insert_row now q j h) (
        IsChained-snoc (new_row now q j) j h
          (rw (head_rh-eq (get j.streams q.stream_id) q.stream_id)));
    heads = λ s.
        rw (rows-insert_row now q j h) (unfold insert_row in heads-snoc (new_row now q j) j s h);
  }

  -- The journal after a request, thrown or not.
  abbrev pub after : Outcome (Journal × Appended) → Journal → Journal
  after (done (j', a)) j = j'
  after (thrown e) j = j

  abbrev pub append_all : List (String × Request) → Journal → Journal
  append_all [] j = j
  append_all ((now, q) ∷ qs) j = append_all qs (after (append_entry sha256_hex now q j) j)

  append_entry-IsSound :
      (now : String) (q : Request) (j : Journal)
      → IsSound j
      → IsSound (after (append_entry sha256_hex now q j) j)
  unfolding append_entry
  append_entry-IsSound now q j h = elim (Option-cases (assert_art12 q.entry)) [
    | inl passed ↦ rw (after, passed) (insert_row-IsSound now q j h)
    | inr (e, failed) ↦ rw (after, failed) h
  ]

  pub append_all-IsSound :
      (qs : List (String × Request)) (j : Journal) → IsSound j → IsSound (append_all qs j)
  append_all-IsSound [] j h = h
  append_all-IsSound ((now, q) ∷ qs) j h =
      append_all-IsSound qs (after (append_entry sha256_hex now q j) j)
        (append_entry-IsSound now q j h)

  -- Whatever is appended to a new journal, in any order and to any streams, `replayVerify` accepts
  -- the result, sequence numbers grow along it, and the recorded head of each stream is the
  -- sequence number and hash of its last row.
  pub append_all_verifies :
      (qs : List (String × Request))
      → let j = append_all qs open_journal in
        (replay_verify sha256_hex j ≡ ok)
        × Increasing j.rows
        × ((s : String) → get j.streams s ≡ last_head none (of_stream s j.rows))
  append_all_verifies qs =
      let h = append_all-IsSound qs open_journal open_journal-IsSound in
      (
        (replay_verify_iff sha256_hex (append_all qs open_journal)).1 h.chained,
        h.increasing,
        h.heads,
      )
