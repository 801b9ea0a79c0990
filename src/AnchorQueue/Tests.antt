-- ===== src/AnchorQueue/Tests.antt =====
-- A run of the model of hub/anchor-queue.mjs: two markers, the relay fails once and then answers.
use ainumbers_helm.Prelude.{
  false, ℕ, suc, zero, ◌≡◌, refl, Bool, true, none, some, List, [], ◌∷◌, All, arith,
}
use ainumbers_helm.AnchorQueue.{
  Marker, Tick, Call, anchored, relay_error, min_retry_interval_ms, drain_anchor_queue, requeue,
  resolve_anchor_retry, pause_of,
}
use ainumbers_helm.AnchorQueue.Drain.{IsKept, drain_loses_nothing}
use ainumbers_helm.AnchorQueue.Spacing.{Punctual, Spaced, drain-Spaced}

abbrev marker : ℕ → Marker
marker seq = record {
  checkpoint_seq = seq;
  status = "queued";
  reason = "relay_unreachable";
  relay_url = "relay";
  recorded_at = 0;
  attempts = 0;
  last_attempt_at = none;
  journal_root_digest = some "sha256:00";
}

abbrev world : ℕ → Tick
world zero = record {
  check = 50000;
  before = 50001;
  at = 50002;
  attempted_at = 50003;
  answer = relay_error;
}
world (suc n) = record {
  check = 51000;
  before = 51001;
  at = 70003;
  attempted_at = 70004;
  answer = anchored "a";
}

abbrev queue : List Marker
queue = marker 1 ∷ marker 2 ∷ []

abbrev accept : Marker → Bool
accept m = true

returned_run : (drain_anchor_queue accept min_retry_interval_ms world queue).thrown ≡ false
unfolding drain_anchor_queue requeue resolve_anchor_retry pause_of
returned_run = refl

drain_loses_nothing_example :
    IsKept accept 1 (drain_anchor_queue accept min_retry_interval_ms world queue)
drain_loses_nothing_example =
    drain_loses_nothing accept min_retry_interval_ms world queue 1 refl returned_run

abbrev calls : List Call
calls =
    record { last = 0; before = 50001; pause = 0; at = 50002 }
    ∷ record { last = 50002; before = 51001; pause = 19001; at = 70003 }
    ∷ []

calls_run : (drain_anchor_queue accept min_retry_interval_ms world queue).calls ≡ calls
unfolding drain_anchor_queue requeue resolve_anchor_retry pause_of
calls_run = refl

calls-Punctual : All Punctual (drain_anchor_queue accept min_retry_interval_ms world queue).calls
calls-Punctual = rw calls_run (omega arith)

drain-Spaced_example :
    Spaced min_retry_interval_ms (drain_anchor_queue accept min_retry_interval_ms world queue).calls
drain-Spaced_example = drain-Spaced accept min_retry_interval_ms world queue calls-Punctual
