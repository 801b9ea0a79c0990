-- ===== src/Journal/Tamper.antt =====
-- What `replayVerify` of hub/journal.mjs can and cannot notice in a journal that was edited.
use ainumbers_helm.Prelude.{
  keep-append, ℕ, String, ◌≡◌, refl, sym, ◌∙◌, ap, Option, none, some, List, [], ◌∷◌, ◌++◌, map,
  str_eq, str_eq_refl, if◌then◌else◌,
}
use ainumbers_helm.Prelude.Dict.{Dict, get, set}
use ainumbers_helm.Journal.{
  Row, Head, Journal, Verdict, ok, broken, link, rh_or_seed, replay_loop, replay_verify,
}
use ainumbers_helm.Journal.Chain.{of_stream, StreamChain, replay_verify_iff}
use ainumbers_helm.Journal.Append.{last_head, rh_of}

module _ (sha256_hex : List ℕ → String) where
  pub chain-at :
      (s : String) (h : Option Head) (xs ys : List Row) (r : Row)
      → StreamChain sha256_hex s (rh_of sha256_hex h s) (xs ++ r ∷ ys)
      → r.rh ≡ link sha256_hex (rh_of sha256_hex (last_head h xs) s) s r.seq r.entry_digest
  chain-at s h [] ys r c = c.0
  chain-at s h (x ∷ xs) ys r c = chain-at s (some (record { seq = x.seq; rh = x.rh })) xs ys r c.1

  -- The hash that an accepted journal stores in a row, from the rows of its stream before it.
  pub stored_rh :
      (j : Journal) (xs ys : List Row) (r : Row)
      → replay_verify sha256_hex j ≡ ok
      → j.rows ≡ xs ++ r ∷ ys
      → r.rh
        ≡ link sha256_hex
            (rh_of sha256_hex (last_head none (of_stream r.stream_id xs)) r.stream_id)
            r.stream_id
            r.seq
            r.entry_digest
  stored_rh j xs ys r accepted e =
      chain-at r.stream_id none (of_stream r.stream_id xs) (of_stream r.stream_id ys) r (
        rw (e, keep-append, str_eq_refl) at
          (((replay_verify_iff sha256_hex j).0 accepted) r.stream_id))

-- the columns that the replay reads
abbrev pub SealedRow : Type 0
SealedRow = ℕ × String × String × String

abbrev pub sealed : Row → SealedRow
sealed r = (r.seq, r.stream_id, r.entry_digest, r.rh)

module _ (sha256_hex : List ℕ → String) where
  replay_sealed : Dict String → List SealedRow → Verdict
  replay_sealed heads [] = ok
  replay_sealed heads ((seq, stream_id, entry_digest, rh) ∷ rs) =
      let prev = rh_or_seed sha256_hex (get heads stream_id) stream_id in
      let expected = link sha256_hex prev stream_id seq entry_digest in
      let rest = replay_sealed (set heads stream_id expected) rs in
      if str_eq expected rh then rest else broken seq stream_id expected rh

  replay_loop-sealed :
      (heads : Dict String) (rows : List Row)
      → replay_loop sha256_hex heads rows ≡ replay_sealed heads (map sealed rows)
  unfolding replay_loop replay_sealed
  replay_loop-sealed heads [] = refl
  replay_loop-sealed heads (r ∷ rs) = rw (
      replay_loop-sealed
        (set heads r.stream_id (
          link sha256_hex (rh_or_seed sha256_hex (get heads r.stream_id) r.stream_id) r.stream_id
            r.seq r.entry_digest))
        rs)

  -- Two journals whose rows agree in sequence number, stream, entry digest and stored hash have the
  -- same verdict, whatever entries their rows hold: the stored entry is not compared with its
  -- digest.
  pub replay_ignores_entries :
      (a b : Journal)
      → map sealed a.rows ≡ map sealed b.rows
      → replay_verify sha256_hex a ≡ replay_verify sha256_hex b
  unfolding replay_verify
  replay_ignores_entries a b e =
      replay_loop-sealed [] a.rows ∙ ap (replay_sealed []) e ∙ sym (replay_loop-sealed [] b.rows)
