-- ===== src/HaGate/Check.antt =====
-- hub/ha-gate.mjs: the gate that the run engine asks, and the scan for the step that holds a run. The
-- vendored evaluator is the parameter `evaluate`.
use ainumbers_helm.HaStore.{HaRecord, Store, records_for_subject, is_empty}
use ainumbers_helm.Json.{is_truthy, Json, str, obj, get_field}
use ainumbers_helm.Journal.{record_digest}
use ainumbers_helm.Prelude.{
  ℕ, String, ◌<>◌, Bool, Option, none, some, List, [], ◌∷◌, str_eq, if◌then◌else◌,
}
use ainumbers_helm.Run.Engine.{Gate}
use ainumbers_helm.Run.Manifest.{Step, Result, ok, err, ◌>>=◌}
use ainumbers_helm.Run.Plan.{plan_steps}
use ainumbers_helm.Run.Tables.{Run, StepResult, step_input_digest, get_memoized_step}

-- a ?? b, for an absent member
text_or : Option Json → String → String
text_or (some (str s)) d = s
text_or _ d = d

-- o?.[k] and a text that is not empty
unfoldable pub member_text : Option Json → String → Option String
member_text (some (obj fs)) k = elim (get_field fs k) [
  | some (str s) ↦ if is_empty s then none else some s
  | _ ↦ none
]
member_text _ k = none

unfoldable pub member_json : Option Json → String → Option Json
member_json (some (obj fs)) k = get_field fs k
member_json _ k = none

unfoldable pub artifact_hash : Option Json → Option String
unfolding member_text member_json
artifact_hash output = member_text (member_json output "artifact") "execution_hash"

unfoldable pub subject_hash_for : Option String → Option Json → String
unfolding artifact_hash
subject_hash_for prior_digest prior_output = elim (artifact_hash prior_output) [
  | some hash ↦ "sha256:" <> hash
  | none ↦ elim prior_digest [
    | some d ↦ d
    | none ↦ "sha256:0000000000000000000000000000000000000000000000000000000000000000"
  ]
]

pub record Asked : Type 0 where
  pub gate_policy : Json
  pub threshold : Option Json
  pub role : String
  pub subject_hash : String
  pub records : List HaRecord
  pub now : String

pub record Evaluated : Type 0 where
  pub status : String
  pub reason : String

pub record HeldGate : Type 0 where
  pub step_id : String
  pub reason : String
  pub subject_hash : String
  pub role : String
  pub preceding_step_id : Option String

unfoldable pub asked_of : Store → String → Step → Option String → Option Json → Json → Asked
unfolding text_or member_json
asked_of s now step prior_digest prior_output policy =
    let subject = subject_hash_for prior_digest prior_output in
    record {
      gate_policy = policy;
      threshold = member_json (some step.item.json) "gate_threshold";
      role = text_or (member_json (some step.item.json) "gate_role") "approver";
      subject_hash = subject;
      records = records_for_subject s subject;
      now = now;
    }

unfoldable pub held_by : Step → Asked → Evaluated → Option HeldGate
held_by step q v =
    if str_eq v.status "satisfied"
    then none
    else if str_eq v.status "override_active"
    then none
    else some (record {
      step_id = step.step_id;
      reason = step.step_id <> ": " <> v.reason;
      subject_hash = q.subject_hash;
      role = q.role;
      preceding_step_id = none;
    })

-- step.item?.gate_policy, where it is truthy
unfoldable pub policy_of : Json → Option Json
unfolding member_json is_truthy
policy_of item = elim (member_json (some item) "gate_policy") [
  | none ↦ none
  | some p ↦ if is_truthy p then some p else none
]

module _ (evaluate : Asked → Evaluated) where
  -- haGateCheckFor: none where the step is not held; a step without a policy never is.
  unfoldable pub gate_check : Store → String → Step → Option String → Option Json → Option HeldGate
  unfolding policy_of asked_of held_by
  gate_check s now step prior_digest prior_output = elim (policy_of step.item.json) [
    | none ↦ none
    | some policy ↦
        let q = asked_of s now step prior_digest prior_output policy in held_by step q (evaluate q)
  ]

  abbrev pub reason_of : Option HeldGate → Option String
  reason_of none = none
  reason_of (some h) = some h.reason

  -- The callback as the run engine calls it.
  unfoldable pub ha_gate_check_for : Store → String → Gate
  ha_gate_check_for s now = some (λ step prior_digest prior_output.
      ok (reason_of (gate_check s now step prior_digest prior_output)))

  module _ (sha256_hex : List ℕ → String) where
    unfoldable pub with_preceding : Option String → Option HeldGate → Option HeldGate
    with_preceding preceding none = none
    with_preceding preceding (some h) = some (record h { preceding_step_id = preceding })

    -- The loop of findHeldGate, whose digest of a step's input has no bound parameters.
    unfoldable pub scan :
        Store
        → String
        → List StepResult
        → String
        → Bool
        → List Step
        → Option String
        → Option Json
        → Option String
        → Result (Option HeldGate)
    unfolding with_preceding
    scan s now results run_id dry_run [] digest output preceding = ok none
    scan s now results run_id dry_run (step ∷ steps) digest output preceding =
        elim (get_memoized_step sha256_hex results run_id step.step_id
          (step_input_digest sha256_hex run_id step digest dry_run none)) [
            | err e ↦ err e
            | ok (some memo) ↦
                scan s now results run_id dry_run steps (some memo.output_digest) (some memo.output)
                  (some step.step_id)
            | ok none ↦ ok (with_preceding preceding (gate_check s now step digest output))
          ]

    unfoldable pub find_held_gate :
        Store → String → List StepResult → String → Run → Result (Option HeldGate)
    unfolding scan
    find_held_gate s now results run_id run =
        plan_steps (record_digest sha256_hex) run.manifest
        >>= (λ steps. scan s now results run_id run.dry_run steps none none none)
