-- ===== src/AnchorQueue.antt =====
-- hub/anchor-queue.mjs: the markers of checkpoints that could not be anchored, and the pass that tries
-- them again. The queue file is the list of its markers; timestamps are milliseconds. What the pass
-- meets, its clock readings and the relay's answers, is the argument `world`, by the number of the
-- entry. The schema check of buildQueueMarker (hub/anchor-client.mjs) is the parameter `is_valid`.
pub mod Drain
pub mod Spacing
pub mod Tests
use ainumbers_helm.Prelude.{
  ℕ, suc, ◌+◌, ◌-◌, String, ◌<>◌, Bool, true, false, not, Option, none, some, List, [], ◌∷◌, ◌++◌,
  ltb, ◌==◌, str_eq, if◌then◌else◌, keep,
}
use ainumbers_helm.Prelude.Bytes.{codes}

pub record Marker : Type 0 where
  pub checkpoint_seq : ℕ
  pub status : String
  pub reason : String
  pub relay_url : String
  pub recorded_at : ℕ
  pub attempts : ℕ
  pub last_attempt_at : Option ℕ
  pub journal_root_digest : Option String

abbrev pub min_retry_interval_ms : ℕ
min_retry_interval_ms = 20000

-- `none` and the empty text are falsy.
abbrev pub has_digest : Option String → Bool
has_digest none = false
has_digest (some d) = if str_eq d "" then false else true

abbrev pub without : ℕ → List Marker → List Marker
without seq q = keep (λ e. if e.checkpoint_seq == seq then false else true) q

unfoldable pub enqueue_anchor_retry : Marker → List Marker → List Marker
enqueue_anchor_retry m q =
    if str_eq m.status "queued"
    then (if has_digest m.journal_root_digest then without m.checkpoint_seq q ++ m ∷ [] else q)
    else q

unfoldable pub resolve_anchor_retry : ℕ → List Marker → List Marker
resolve_anchor_retry seq q = without seq q

is_prefix : List ℕ → List ℕ → Bool
is_prefix [] ds = true
is_prefix (c ∷ cs) [] = false
is_prefix (c ∷ cs) (d ∷ ds) = let rest = is_prefix cs ds in if c == d then rest else false

with_prefix : Option String → Option String
unfolding is_prefix
with_prefix none = none
with_prefix (some d) =
    if is_prefix (codes "sha256:") (codes d) then some d else some ("sha256:" <> d)

-- The marker that buildQueueMarker builds for a failed attempt.
unfoldable pub rebuilt : Marker → String → ℕ → Marker
unfolding with_prefix
rebuilt e reason at = record {
  checkpoint_seq = e.checkpoint_seq;
  status = "queued";
  reason = reason;
  relay_url = e.relay_url;
  recorded_at = at;
  attempts = suc e.attempts;
  last_attempt_at = some at;
  journal_root_digest = with_prefix e.journal_root_digest;
}

pub data Answer : Type 0 where
  anchored : String → Answer
  relay_error relay_unreachable unknown_ca : Answer

-- The clock at the cooldown check, before the pause, after it, at the attempt; and what was answered.
pub record Tick : Type 0 where
  pub check : ℕ
  pub before : ℕ
  pub at : ℕ
  pub attempted_at : ℕ
  pub answer : Answer

-- One relay call: when the one before it started (0 where there was none), the pause, the start.
pub record Call : Type 0 where
  pub last : ℕ
  pub before : ℕ
  pub pause : ℕ
  pub at : ℕ

-- What a pass leaves and returns; `resolved` is empty where it throws.
pub record Pass : Type 0 where
  pub queue : List Marker
  pub resolved : List (ℕ × String)
  pub calls : List Call
  pub thrown : Bool

abbrev pub last_ms : Option ℕ → ℕ
last_ms none = 0
last_ms (some t) = t

-- sleep(minIntervalMs - elapsed), where elapsed is before - last and is less than the interval
unfoldable pub pause_of : ℕ → ℕ → ℕ → ℕ
pause_of interval last before =
    if ltb 0 last then (if ltb before (last + interval) then last + interval - before else 0) else 0

module _ (is_valid : Marker → Bool) where
  -- The catch: an unknown CA is thrown on; any other failure puts the marker back, newly built.
  unfoldable pub requeue : Marker → String → ℕ → List Marker → Option (List Marker)
  requeue e reason at q =
      if is_valid (rebuilt e reason at)
      then some (without e.checkpoint_seq q ++ rebuilt e reason at ∷ [])
      else none

  failed_pass : List Marker → Pass
  failed_pass q = record { queue = q; resolved = []; calls = []; thrown = true }

  abbrev pub with_call : Call → Pass → Pass
  with_call c p = record p { calls = c ∷ p.calls }

  -- resolved.push; a pass that throws returns no array.
  abbrev pub with_resolved : ℕ → String → Pass → Pass
  with_resolved seq anchor p = record p {
    resolved = if p.thrown then p.resolved else (seq, anchor) ∷ p.resolved;
  }

  abbrev pub is_due : ℕ → Marker → Tick → Bool
  is_due interval e t =
      if has_digest e.journal_root_digest
      then (if ltb t.check (last_ms e.last_attempt_at + interval) then false else true)
      else false

  abbrev pub call_of : ℕ → ℕ → Tick → Call
  call_of interval last t = record {
    last = last;
    before = t.before;
    pause = pause_of interval last t.before;
    at = t.at;
  }

  -- The loop over the entries that the file held at the start.
  unfoldable pub drain : ℕ → (ℕ → Tick) → ℕ → ℕ → List Marker → List Marker → Pass
  unfolding resolve_anchor_retry failed_pass
  drain interval world n last [] q = record { queue = q; resolved = []; calls = []; thrown = false }
  drain interval world n last (e ∷ es) q = elim (is_due interval e (world n)) [
    | false ↦ drain interval world (suc n) last es q
    | true ↦ with_call (call_of interval last (world n)) (elim (world n).answer [
      | anchored a ↦
          with_resolved e.checkpoint_seq a
            (drain interval world (suc n) (world n).at es (resolve_anchor_retry e.checkpoint_seq q))
      | unknown_ca ↦ failed_pass q
      | relay_error ↦ elim (requeue e "relay_error" (world n).attempted_at q) [
        | none ↦ failed_pass q
        | some q' ↦ drain interval world (suc n) (world n).at es q'
      ]
      | relay_unreachable ↦ elim (requeue e "relay_unreachable" (world n).attempted_at q) [
        | none ↦ failed_pass q
        | some q' ↦ drain interval world (suc n) (world n).at es q'
      ]
    ])
  ]

  unfoldable pub drain_anchor_queue : ℕ → (ℕ → Tick) → List Marker → Pass
  unfolding drain
  drain_anchor_queue interval world q = drain interval world 0 0 q q
