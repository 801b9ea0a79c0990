-- ===== src/AnchorQueue/Spacing.antt =====
-- A drain pass of hub/anchor-queue.mjs against the relay's rate limit.
use ainumbers_helm.Prelude.{
  ℕ, suc, ◌+◌, ◌≤◌, ◌<◌, ◌≡◌, refl, Bool, List, [], ◌∷◌, All, Bool-cases, Option-cases, arith, inl,
  inr,
}
use ainumbers_helm.AnchorQueue.{
  Marker, Tick, Call, pause_of, requeue, resolve_anchor_retry, is_due, drain, drain_anchor_queue,
}
use ainumbers_helm.AnchorQueue.Drain.{Answer-cases}

-- Each call follows the one before it, after the pause that the code computes.
Follows : ℕ → ℕ → List Call → Type 0
Follows interval last [] = Unit
Follows interval last (c ∷ cs) =
    (c.last ≡ last) × (c.pause ≡ pause_of interval last c.before) × Follows interval c.at cs

-- The clock after the pause shows at least the length of the pause more than before it, and is not 0.
abbrev pub Punctual : Call → Type 0
Punctual c = (c.before + c.pause ≤ c.at) × (0 < c.at)

-- Two calls in succession start at least the interval apart.
abbrev pub Spaced : ℕ → List Call → Type 0
Spaced interval [] = Unit
Spaced interval (c ∷ []) = Unit
Spaced interval (c ∷ d ∷ cs) = (c.at + interval ≤ d.at) × Spaced interval (d ∷ cs)

pause-enough :
    (interval last before at : ℕ)
    → 0 < last
    → before + pause_of interval last before ≤ at
    → last + interval ≤ at
unfolding pause_of
pause-enough interval last before at h k = ground arith

Follows-Spaced :
    (interval last : ℕ) (cs : List Call)
    → Follows interval last cs
    → All Punctual cs
    → Spaced interval cs
unfolding Follows
Follows-Spaced interval last [] f p = tt
Follows-Spaced interval last (c ∷ []) f p = tt
Follows-Spaced interval last (c ∷ d ∷ cs) f p = (
  pause-enough interval c.at d.before d.at p.0.1 (rw (f.2.1) at (p.1.0.0)),
  Follows-Spaced interval c.at (d ∷ cs) f.2 p.1,
)

module _ (is_valid : Marker → Bool) where
  drain-Follows :
      (interval : ℕ) (world : ℕ → Tick) (n last : ℕ) (es q : List Marker)
      → Follows interval last (drain is_valid interval world n last es q).calls
  unfolding drain Follows
  drain-Follows interval world n last [] q = tt
  drain-Follows interval world n last (e ∷ es) q =
      let again = λ (q' : List Marker). drain-Follows interval world (suc n) (world n).at es q' in
      elim (Bool-cases (is_due is_valid interval e (world n))) [
        | inr waits ↦ rw (drain, waits) (drain-Follows interval world (suc n) last es q)
        | inl due ↦ elim (Answer-cases (world n).answer) [
          | inl (a, k) ↦
              rw (drain, due, k) (refl, refl, again (resolve_anchor_retry e.checkpoint_seq q))
          | inr (inl k) ↦ rw (drain, due, k) (refl, refl, tt)
          | inr (inr (inl k)) ↦
              elim (Option-cases (requeue is_valid e "relay_error" (world n).attempted_at q)) [
                | inl bad ↦ rw (drain, due, k, bad) (refl, refl, tt)
                | inr (q', put) ↦ rw (drain, due, k, put) (refl, refl, again q')
              ]
          | inr (inr (inr k)) ↦
              elim (Option-cases
                (requeue is_valid e "relay_unreachable" (world n).attempted_at q)) [
                  | inl bad ↦ rw (drain, due, k, bad) (refl, refl, tt)
                  | inr (q', put) ↦ rw (drain, due, k, put) (refl, refl, again q')
                ]
        ]
      ]

  -- If no pause of a pass ends early by the clock, and the clock never shows 0 at a call, then the
  -- relay calls of the pass start at least the interval apart, however the relay answers.
  pub drain-Spaced :
      (interval : ℕ) (world : ℕ → Tick) (q : List Marker)
      → All Punctual (drain_anchor_queue is_valid interval world q).calls
      → Spaced interval (drain_anchor_queue is_valid interval world q).calls
  unfolding drain_anchor_queue
  drain-Spaced interval world q p =
      Follows-Spaced interval 0 _ (drain-Follows interval world 0 0 q q) p
