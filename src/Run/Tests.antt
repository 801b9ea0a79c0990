-- ===== src/Run/Tests.antt =====
-- A run of the model of hub/run.mjs: two steps, the second of which is fed by the first.
use ainumbers_helm.Json.{get_field, set_field, spread, str, num, obj, nil, end, field}
use ainumbers_helm.Journal.{
  open_journal, append_entry, assert_art12, insert_row, full_entry, update_rh, head_rh, link,
  record_digest,
}
use ainumbers_helm.Prelude.{
  arith, true, ℕ, String, ◌≡◌, refl, false, Option, none, some, List, [], ◌∷◌,
}
use ainumbers_helm.Prelude.Dict.{get, set}
use ainumbers_helm.Run.Engine.{
  Carry, replay_steps, StepDigest, ended, replay_execution_hash, Runner, execute_run, env_for,
  create_run, advance, proceed, resume, settle, complete, update_hash, step_loop, run_step,
  execution_hash_of, carry_on, start,
}
use ainumbers_helm.Run.Engine.Determinism.{Fits}
use ainumbers_helm.Run.Engine.DryRuns.{dry_run_ignores_runner}
use ainumbers_helm.Run.Engine.Execution.{Replayable, execute_run_replays}
use ainumbers_helm.Run.Engine.Reports.{Reported, execute_run-Reported, returned_hash_replays}
use ainumbers_helm.Run.Engine.Reruns.{resumed_run_completes}
use ainumbers_helm.Run.Manifest.{
  Step, nodes, err, step_failed, Item, Manifest, ok, check_bindings, accepted_params,
}
use ainumbers_helm.Run.Order.{indegrees, order_loop, zeros_from, index_edges, order_steps_by_edges}
use ainumbers_helm.Run.Order.Rounds.{rounds_enough}
use ainumbers_helm.Run.Plan.{validate_manifest_bindings, plan_steps, base_steps, step_id_of}
use ainumbers_helm.Run.Tables.{
  State, completed, running, Run, Db, is_allowed, select_result, next_journal_seq,
  resolve_bound_params, sha256_ref, step_input_digest, checked, get_memoized_step, save_step_result,
  transition_entry, transition_request, update_state, finish_transition, transition_state,
}

-- The hash of the tests keeps nothing but that there is one.
abbrev constant : List ℕ → String
constant bs = "00"

abbrev item : String → Item
item id = record {
  id = id;
  kernel_digest = none;
  policy_parameters = field "rate" (num 1) end;
  json = obj (field "id" (str id) end);
}

abbrev manifest : Manifest
manifest = record {
  connectors = item "c" ∷ [];
  attested_artifacts = [];
  nodes = item "n" ∷ [];
  gates = [];
  actions = [];
  connector_inputs = some (
      record {
        step_id = "feed";
        connector_id = "c";
        feeds_node_id = "n";
        feeds_param = "rate";
        params = none;
      }
      ∷ []);
  required_inputs = [];
  json = obj (field "name" (str "two steps") end);
}

abbrev runner : Runner
runner = record { run_step = λ s resolved prior j. (j, ok (str s.step_id)); can_dispatch = none }

abbrev empty : Db
empty = record { journal = open_journal; runs = []; step_results = [] }

empty-Replayable : Replayable constant empty
unfolding get
empty-Replayable = record { at = λ run_id row h k. cc }

empty-Fits : Fits (env_for constant "r" manifest nil "now") manifest false empty.runs
unfolding get
empty-Fits = record { at = λ row h. cc }

execute_run_replays_example :
    Replayable constant (execute_run constant "now" "r" manifest runner false nil none empty).0
execute_run_replays_example =
    execute_run_replays constant "now" "r" manifest runner false nil none empty empty-Replayable
      empty-Fits

abbrev state_of : Option Run → Option State
state_of none = none
state_of (some r) = some r.state

completed_run :
    state_of (get (execute_run constant "now" "r" manifest runner false nil none empty).0.runs "r")
    ≡ some completed
unfolding get set execute_run env_for validate_manifest_bindings check_bindings plan_steps
    base_steps step_id_of accepted_params index_edges order_steps_by_edges create_run
    transition_state is_allowed finish_transition append_entry assert_art12 insert_row full_entry
    get_field set_field spread transition_request transition_entry open_journal next_journal_seq
    update_state advance proceed resume settle complete update_hash step_loop run_step
    resolve_bound_params get_memoized_step select_result save_step_result sha256_ref record_digest
    execution_hash_of carry_on start update_rh head_rh link checked step_input_digest
completed_run = refl

execute_run-Reported_example :
    Reported "r" (execute_run constant "now" "r" manifest runner false nil none empty)
execute_run-Reported_example =
    execute_run-Reported constant "now" "r" manifest runner false nil none empty

abbrev digest_of : String → StepDigest
digest_of id = record { step_id = id; input_digest = "sha256:00"; output_digest = "sha256:00" }

returned_run :
    (execute_run constant "now" "r" manifest runner false nil none empty).1
    ≡ ok (ended completed (some "sha256:00") (digest_of "connectors:c" ∷ digest_of "nodes:n" ∷ []))
unfolding get set execute_run env_for validate_manifest_bindings check_bindings plan_steps
    base_steps step_id_of accepted_params index_edges order_steps_by_edges create_run
    transition_state is_allowed finish_transition append_entry assert_art12 insert_row full_entry
    get_field set_field spread transition_request transition_entry open_journal next_journal_seq
    update_state advance proceed resume settle complete update_hash step_loop run_step
    resolve_bound_params get_memoized_step select_result save_step_result sha256_ref record_digest
    execution_hash_of carry_on start update_rh head_rh link checked step_input_digest
returned_run = refl

returned_hash_replays_example :
    (h : String) × (some "sha256:00" ≡ some h)
    × (replay_execution_hash constant
          (execute_run constant "now" "r" manifest runner false nil none empty).0
          "r"
        ≡ ok h)
returned_hash_replays_example =
    returned_hash_replays constant "now" "r" manifest runner false nil none empty (some "sha256:00")
      (digest_of "connectors:c" ∷ digest_of "nodes:n" ∷ []) empty-Replayable empty-Fits returned_run

dry_run_ignores_runner_example :
    execute_run constant "now" "r" manifest
      (record runner { run_step = λ s resolved prior j. (open_journal, err (step_failed "n")) })
      true
      nil
      none
      empty
    ≡ execute_run constant "now" "r" manifest runner true nil none empty
dry_run_ignores_runner_example =
    dry_run_ignores_runner constant "now" "r" manifest runner
      (λ s resolved prior j. (open_journal, err (step_failed "n"))) nil none empty

abbrev step_one : Step
step_one = record {
  step_id = "nodes:n";
  kind = nodes;
  item = item "n";
  content_digest = "00";
  seq = 0;
  bindings = none;
  params = none;
}

abbrev interrupted : Db
interrupted = record {
  journal = open_journal;
  runs = [];
  step_results =
      record {
        run_id = "r";
        step_id = "nodes:n";
        input_digest = "sha256:00";
        output = str "x";
        output_digest = "sha256:00";
        completed_at = "then";
      }
      ∷ [];
}

abbrev carry_one : Carry
carry_one =
    carry_on start step_one "sha256:00" (record { output = str "x"; output_digest = "sha256:00" })

replayed_run :
    replay_steps constant interrupted.step_results "r" false (step_one ∷ []) start ≡ ok carry_one
unfolding replay_steps resolve_bound_params step_input_digest sha256_ref record_digest
    get_memoized_step select_result checked
replayed_run = refl

resumed_run_completes_example :
    proceed constant
      (env_for constant "r" manifest nil "now")
      runner
      none
      false
      (step_one ∷ [])
      running
      none
      interrupted
    ≡ complete constant (env_for constant "r" manifest nil "now") carry_one interrupted
resumed_run_completes_example =
    resumed_run_completes constant (env_for constant "r" manifest nil "now") runner none false
      (step_one ∷ []) none carry_one interrupted (unfold env_for in replayed_run)

abbrev cycle : List (String × String)
cycle = ("nodes:n", "nodes:n") ∷ []

rounds_enough_example :
    let es = index_edges (step_one ∷ []) cycle [] in
    let degrees = indegrees 0 1 es in
    order_loop 7 es degrees (zeros_from 0 degrees) []
    ≡ order_loop 1 es degrees (zeros_from 0 degrees) []
rounds_enough_example = rounds_enough (step_one ∷ []) cycle 7 (omega arith)
