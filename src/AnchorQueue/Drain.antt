-- ===== src/AnchorQueue/Drain.antt =====
-- A drain pass of hub/anchor-queue.mjs loses no marker.
use ainumbers_helm.Prelude.{
  ℕ, suc, String, ◌≡◌, refl, subst, Bool, true, false, some, List, [], ◌∷◌, ◌++◌, ◌==◌, any,
  Bool-cases, Option-cases, arith, inl, inr, ◌⊎◌,
}
use ainumbers_helm.AnchorQueue.{
  Marker, Answer, anchored, relay_error, relay_unreachable, unknown_ca, Tick, without, rebuilt,
  resolve_anchor_retry, requeue, is_due, drain, drain_anchor_queue, Pass, with_resolved,
}

-- A marker of the checkpoint stands in the queue; the checkpoint is among the resolved.
abbrev pub queued_for : ℕ → List Marker → Bool
queued_for seq q = any (λ e. e.checkpoint_seq == seq) q

abbrev pub resolved_for : ℕ → List (ℕ × String) → Bool
resolved_for seq rs = any (λ r. r.0 == seq) rs

without-others :
    (s seq : ℕ) (q : List Marker)
    → queued_for seq q ≡ true
    → (seq == s) ≡ false
    → queued_for seq (without s q) ≡ true
without-others s seq [] h d = h
without-others s seq (e ∷ es) h d = ground (arith, without-others s seq es)

queued-append :
    (seq : ℕ) (q : List Marker) (m : Marker)
    → queued_for seq q ≡ true
    → queued_for seq (q ++ m ∷ []) ≡ true
queued-append seq [] m h = cc
queued-append seq (e ∷ es) m h = ground (arith, queued-append seq es m)

queued-added :
    (seq : ℕ) (q : List Marker) (m : Marker)
    → (m.checkpoint_seq == seq) ≡ true
    → queued_for seq (q ++ m ∷ []) ≡ true
queued-added seq [] m h = rw h refl
queued-added seq (e ∷ es) m h = ground (arith, queued-added seq es m h)

pub Answer-cases :
    (a : Answer)
    → ((x : String) × (a ≡ anchored x))
      ⊎ (a ≡ unknown_ca)
      ⊎ (a ≡ relay_error)
      ⊎ (a ≡ relay_unreachable)
Answer-cases (anchored x) = inl (x, refl)
Answer-cases unknown_ca = inr (inl refl)
Answer-cases relay_error = inr (inr (inl refl))
Answer-cases relay_unreachable = inr (inr (inr refl))

module _ (is_valid : Marker → Bool) where
  requeue-keeps :
      (e : Marker) (reason : String) (at seq : ℕ) (q q' : List Marker)
      → queued_for seq q ≡ true
      → requeue is_valid e reason at q ≡ some q'
      → queued_for seq q' ≡ true
  unfolding requeue rebuilt
  requeue-keeps e reason at seq q q' h k = elim (Bool-cases (is_valid (rebuilt e reason at))) [
    | inr bad ↦ cc (rw (requeue, bad) at k)
    | inl good ↦
        let same : without e.checkpoint_seq q ++ rebuilt e reason at ∷ [] ≡ q' =
          cc (rw (requeue, good) at k) in
        subst (λ x. queued_for seq x ≡ true) same
          (elim (Bool-cases (seq == e.checkpoint_seq)) [
            | inl own ↦
                queued-added seq (without e.checkpoint_seq q) (rebuilt e reason at) (ground arith)
            | inr other ↦
                queued-append seq (without e.checkpoint_seq q) (rebuilt e reason at)
                  (without-others e.checkpoint_seq seq q h other)
          ])
  ]

  -- Of a pass that returns: a marker of the checkpoint is queued, or it is resolved.
  abbrev pub IsKept : ℕ → Pass → Type 0
  IsKept seq p = (queued_for seq p.queue ≡ true) ⊎ (resolved_for seq p.resolved ≡ true)

  -- The rest of a pass, after a resolution of the checkpoint `s`.
  keep-resolved :
      (seq s : ℕ) (a : String) (p : Pass)
      → p.thrown ≡ false
      → (s == seq) ≡ true ⊎ IsKept seq p
      → IsKept seq (with_resolved is_valid s a p)
  keep-resolved seq s a p t (inl own) = rw t (inr (rw own refl))
  keep-resolved seq s a p t (inr (inl queued)) = inl queued
  keep-resolved seq s a p t (inr (inr done)) = elim (Bool-cases (s == seq)) [
    | inl own ↦ rw t (inr (rw own refl))
    | inr other ↦ rw t (inr (rw other done))
  ]

  drain-keeps :
      (interval : ℕ) (world : ℕ → Tick) (n last seq : ℕ) (es q : List Marker)
      → queued_for seq q ≡ true
      → (drain is_valid interval world n last es q).thrown ≡ false
      → IsKept seq (drain is_valid interval world n last es q)
  unfolding drain
  drain-keeps interval world n last seq [] q h k = inl h
  drain-keeps interval world n last seq (e ∷ es) q h k =
      elim (Bool-cases (is_due is_valid interval e (world n))) [
        | inr waits ↦
            rw (drain, waits)
              (drain-keeps interval world (suc n) last seq es q h (rw (drain, waits) at k))
        | inl due ↦ elim (Answer-cases (world n).answer) [
          | inl (a, r) ↦
              let rest : Pass =
                drain is_valid interval world (suc n) (world n).at es
                  (resolve_anchor_retry e.checkpoint_seq q) in
              let returned : rest.thrown ≡ false = rw (drain, due, r) at k in
              rw (drain, due, r)
                (keep-resolved seq e.checkpoint_seq a rest returned
                  (elim (Bool-cases (seq == e.checkpoint_seq)) [
                    | inl own ↦ inl (ground arith)
                    | inr other ↦ inr (
                        drain-keeps interval world (suc n) (world n).at seq es
                          (resolve_anchor_retry e.checkpoint_seq q)
                          (unfold resolve_anchor_retry in
                            without-others e.checkpoint_seq seq q h other)
                          returned)
                  ]))
          | inr (inl r) ↦ cc (rw (drain, due, r) at k)
          | inr (inr (inl r)) ↦
              elim (Option-cases (requeue is_valid e "relay_error" (world n).attempted_at q)) [
                | inl bad ↦ cc (rw (drain, due, r, bad) at k)
                | inr (q', put) ↦
                    rw (drain, due, r, put)
                      (drain-keeps interval world (suc n) (world n).at seq es q'
                        (requeue-keeps e "relay_error" (world n).attempted_at seq q q' h put)
                        (rw (drain, due, r, put) at k))
              ]
          | inr (inr (inr r)) ↦
              elim (Option-cases
                (requeue is_valid e "relay_unreachable" (world n).attempted_at q)) [
                  | inl bad ↦ cc (rw (drain, due, r, bad) at k)
                  | inr (q', put) ↦
                      rw (drain, due, r, put)
                        (drain-keeps interval world (suc n) (world n).at seq es q'
                          (requeue-keeps e "relay_unreachable" (world n).attempted_at seq q q' h
                            put)
                          (rw (drain, due, r, put) at k))
                ]
        ]
      ]

  -- Whatever the clock shows and the relay answers, where the pass returns, each checkpoint that had a
  -- marker in the queue has one in the queue that the pass leaves, or is among the resolved that it
  -- returns.
  pub drain_loses_nothing :
      (interval : ℕ) (world : ℕ → Tick) (q : List Marker) (seq : ℕ)
      → queued_for seq q ≡ true
      → (drain_anchor_queue is_valid interval world q).thrown ≡ false
      → IsKept seq (drain_anchor_queue is_valid interval world q)
  unfolding drain_anchor_queue
  drain_loses_nothing interval world q seq h k = drain-keeps interval world 0 0 seq q q h k
