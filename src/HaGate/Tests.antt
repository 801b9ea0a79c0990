-- ===== src/HaGate/Tests.antt =====
-- Concrete calls of the model of hub/ha-gate.mjs: a step under a policy, and an attested
-- artifact that an automated check verifies.
use ainumbers_helm.HaGate.Attest.{
  Identity, answered, sign_bundle_digest, checker_countersignature, claimed_step, binding_hash,
  last_result, recorded_output, record_artifact_binding_verification,
}
use ainumbers_helm.HaGate.Check.{
  Asked, Evaluated, HeldGate, scan, gate_check, held_by, asked_of, policy_of, member_json,
  member_text, artifact_hash, subject_hash_for, with_preceding,
}
use ainumbers_helm.HaGate.Held.{HoldsAt, scan-HoldsAt}
use ainumbers_helm.HaGate.Signed.{approves, automated_approval}
use ainumbers_helm.HaStore.{
  Slot, Store, Validator, init_ha_tables, has_id, is_maker, records_for_subject,
}
use ainumbers_helm.Journal.{open_journal, record_digest}
use ainumbers_helm.Json.{is_truthy, str, obj, nil, end, field, get_field}
use ainumbers_helm.Prelude.{any, ℕ, String, true, false, none, some, List, [], ◌∷◌, ◌≡◌, refl}
use ainumbers_helm.Prelude.Dict.{get}
use ainumbers_helm.Run.Engine.{Runner, start}
use ainumbers_helm.Run.Manifest.{Item, nodes, attested_artifacts, Step, ok}
use ainumbers_helm.Run.Plan.{plan_steps, base_steps, step_id_of}
use ainumbers_helm.Run.Tables.{
  Run, completed, Env, Db, StepResult, get_memoized_step, select_result, step_input_digest,
  sha256_ref,
}

-- The hash of the tests keeps nothing but that there is one.
abbrev constant : List ℕ → String
constant bs = "00"

abbrev step : Step
step = record {
  step_id = "nodes:n";
  kind = nodes;
  item = record {
    id = "n";
    kernel_digest = none;
    policy_parameters = end;
    json = obj (field "gate_policy" (str "dual_control") end);
  };
  content_digest = "00";
  seq = 0;
  bindings = none;
  params = none;
}

abbrev pending : Asked → Evaluated
pending q = record { status = "pending"; reason = "no approval" }

abbrev env : Env
env = record { run_id = "r"; manifest_digest = "m"; humans = nil; now = "now" }

abbrev runner : Runner
runner = record { run_step = λ s resolved prior j. (j, ok (str s.step_id)); can_dispatch = none }

abbrev empty : Db
empty = record { journal = open_journal; runs = []; step_results = [] }

abbrev held_gate : HeldGate
held_gate = record {
  step_id = "nodes:n";
  reason = "nodes:n: no approval";
  subject_hash = "sha256:0000000000000000000000000000000000000000000000000000000000000000";
  role = "approver";
  preceding_step_id = none;
}

found_held :
    scan pending constant init_ha_tables "now" empty.step_results "r" false
      (step ∷ [])
      start.prior_digest
      start.prior_output
      none
    ≡ ok (some held_gate)
unfolding scan gate_check held_by asked_of policy_of member_json member_text artifact_hash
    subject_hash_for is_truthy with_preceding get_field get_memoized_step select_result
    step_input_digest sha256_ref record_digest start init_ha_tables records_for_subject
found_held = refl

scan-HoldsAt_example :
    HoldsAt pending constant init_ha_tables "now" env runner false held_gate (step ∷ []) start empty
scan-HoldsAt_example =
    scan-HoldsAt pending constant init_ha_tables "now" env runner false (step ∷ []) start none empty
      held_gate (refl, _) found_held

abbrev artifact_item : Item
artifact_item = record {
  id = "a";
  kernel_digest = none;
  policy_parameters = end;
  json = obj (
      field "tool_ref" (str "t")
        (field "artifact" (obj (field "content_digest" (str "c") end)) end));
}

abbrev run : Run
run = record {
  workflow_manifest_digest = "m";
  manifest = record {
    connectors = [];
    attested_artifacts = artifact_item ∷ [];
    nodes = [];
    gates = [];
    actions = [];
    connector_inputs = none;
    required_inputs = [];
    json = obj end;
  };
  dry_run = false;
  state = completed;
  execution_hash = none;
  created_at = "then";
}

abbrev results : List StepResult
results =
    record {
      run_id = "r";
      step_id = "attested_artifacts:a";
      input_digest = "i";
      output = obj (field "artifact" (obj (field "execution_hash" (str "00") end)) end);
      output_digest = "o";
      completed_at = "then";
    }
    ∷ []

abbrev artifact_step : Step
artifact_step = record {
  step_id = "attested_artifacts:a";
  kind = attested_artifacts;
  item = artifact_item;
  content_digest = "00";
  seq = 0;
  bindings = none;
  params = none;
}

found_artifact :
    claimed_step constant attested_artifacts (some run) results "r" "attested_artifacts:a"
    ≡ answered (artifact_step, "00")
unfolding claimed_step recorded_output last_result artifact_hash member_json member_text get_field
    plan_steps base_steps step_id_of record_digest
found_artifact = refl

abbrev maker_slot : Slot
maker_slot = record {
  bundle_digest = "sha256:00";
  maker_signature =
      some (record { keyid = "alice"; sig = "s"; alg = "EdDSA"; attester_kind = "human" });
  countersignatures = [];
  threshold = none;
  as_of = "then";
}

abbrev store : Store
store = record { records = []; slots = ("sha256:00", maker_slot) ∷ [] }

abbrev checker : Identity
checker = record { id = "helm"; sign = λ text. "signed" }

abbrev validator : Validator
validator = record { record_digest = λ r. r.subject_hash; validate_shape = λ r. true }

automated_approval_example :
    any (approves "helm") (
      records_for_subject
        (record_artifact_binding_verification constant validator
          (λ r. "proof")
          "body"
          checker
          "now"
          0
          "automated"
          (some run)
          results
          "r"
          "attested_artifacts:a"
          store).0
        "sha256:00")
    ≡ true
unfolding binding_hash record_digest get has_id is_maker checker_countersignature sign_bundle_digest
automated_approval_example =
    automated_approval constant validator (λ r. "proof") "body" checker "now" 0 (some run) results
      "r" "attested_artifacts:a" store artifact_step "00" maker_slot found_artifact refl refl refl
      refl refl refl
