-- ===== src/Run/Engine.antt =====
-- `executeRun` and `replayExecutionHash` of hub/run.mjs. The step runner and the gate check are
-- arguments, as in the source: the runner may append to the journal, and returns an output or
-- throws; the gate check returns a reason to hold, or none.
pub mod Rounds
pub mod Moves
pub mod Replay
pub mod Recorded
pub mod Determinism
pub mod Execution
pub mod Reports
pub mod Reruns
pub mod DryRuns
use ainumbers_helm.Json.{Json, bool, str, arr, obj, Items, nil, cons, Fields, end, field}
use ainumbers_helm.Journal.{Journal, record_digest}
use ainumbers_helm.Prelude.{
  ℕ, String, Bool, true, false, Option, none, some, List, [], ◌∷◌, ◌++◌, if◌then◌else◌,
}
use ainumbers_helm.Prelude.Dict.{Dict, get, set}
use ainumbers_helm.Run.Manifest.{
  Manifest, Step, Error, Result, ok, err, no_runner, unknown_run, missing_result,
}
use ainumbers_helm.Run.Plan.{layer_key, plan_steps, validate_manifest_bindings}
use ainumbers_helm.Run.Tables.{
  State, draft, validated, queued, running, awaiting_data, completed, failed, Run, StepResult, Db,
  Memo, Env, Exec, pure, throw, and_then, resolve_bound_params, sha256_ref, step_input_digest,
  get_memoized_step, save_step_result, transition_state,
}

pub record StepDigest : Type 0 where
  pub step_id : String
  pub input_digest : String
  pub output_digest : String

pub record Runner : Type 0 where
  pub run_step : Step → Option Fields → Option String → Journal → Journal × Result Json
  pub can_dispatch : Option (Step → Bool)

abbrev pub Gate : Type 0
Gate = Option (Step → Option String → Option Json → Result (Option String))

-- What the step loop carries from step to step.
pub record Carry : Type 0 where
  pub prior_digest : Option String
  pub prior_output : Option Json
  pub digests : List StepDigest
  pub outputs : Dict Json

unfoldable pub start : Carry
start = record { prior_digest = none; prior_output = none; digests = []; outputs = [] }

unfoldable pub carry_on : Carry → Step → String → Memo → Carry
carry_on c s input_digest memo = record {
  prior_digest = some memo.output_digest;
  prior_output = some memo.output;
  digests =
      c.digests
      ++ record {
        step_id = s.step_id;
        input_digest = input_digest;
        output_digest = memo.output_digest;
      }
        ∷ [];
  outputs = set c.outputs s.step_id memo.output;
}

-- How a step ends: with a result, held at its gate, or by a throw.
pub data StepEnd : Type 0 where
  got : Memo → StepEnd
  holds : String → StepEnd
  throws : Error → StepEnd

pub data LoopEnd : Type 0 where
  finished : Carry → LoopEnd
  held_at : String → String → Carry → LoopEnd
  threw : Error → LoopEnd

dry_output : Step → Json
dry_output s = obj (
    field "dry_run" (bool true)
      (field "step_id" (str s.step_id) (field "kind" (str (layer_key s.kind)) end)))

lacks_runner : Option (Step → Bool) → Step → Bool
lacks_runner none s = false
lacks_runner (some can) s = if can s then false else true

ask_gate : Gate → Step → Option String → Option Json → Result (Option String)
ask_gate none s prior output = ok none
ask_gate (some check) s prior output = check s prior output

pub data RunResult : Type 0 where
  ended : State → Option String → List StepDigest → RunResult
  held : String → String → List StepDigest → RunResult

unfoldable pub update_hash : Dict Run → String → String → Dict Run
update_hash runs run_id hash = elim (get runs run_id) [
  | none ↦ runs
  | some r ↦ set runs run_id (record r { execution_hash = some hash })
]

digest_items : List StepDigest → Items
digest_items [] = nil
digest_items (d ∷ ds) =
    cons
      (obj (
        field "step_id" (str d.step_id) (
          field "input_digest" (str d.input_digest)
            (field "output_digest" (str d.output_digest) end))))
      (digest_items ds)

module _ (sha256_hex : List ℕ → String) where
  save_output : Env → Step → String → Json → Db → Db × StepEnd
  unfolding sha256_ref
  save_output e s input_digest output db = (
    record db {
      step_results =
          save_step_result sha256_hex db.step_results e.run_id s.step_id input_digest output e.now;
    },
    got (record { output = output; output_digest = sha256_ref sha256_hex output }),
  )

  after_runner : Env → Step → String → Journal × Result Json → Db → Db × StepEnd
  unfolding save_output
  after_runner e s input_digest (j, ok output) db =
      save_output e s input_digest output (record db { journal = j })
  after_runner e s input_digest (j, err x) db = (record db { journal = j }, throws x)

  produce : Env → Runner → Bool → Step → Option Fields → Carry → String → Db → Db × StepEnd
  unfolding save_output after_runner lacks_runner dry_output
  produce e r true s resolved c input_digest db =
      if lacks_runner r.can_dispatch s
      then (db, throws (no_runner s.step_id))
      else save_output e s input_digest (dry_output s) db
  produce e r false s resolved c input_digest db =
      after_runner e s input_digest (r.run_step s resolved c.prior_digest db.journal) db

  -- The gate comes before the runner, and a held attempt is not memoized.
  gated :
      Env
      → Runner
      → Bool
      → Step
      → Option Fields
      → Carry
      → String
      → Result (Option String)
      → Db
      → Db × StepEnd
  unfolding produce
  gated e r dry_run s resolved c input_digest (err x) db = (db, throws x)
  gated e r dry_run s resolved c input_digest (ok (some reason)) db = (db, holds reason)
  gated e r dry_run s resolved c input_digest (ok none) db =
      produce e r dry_run s resolved c input_digest db

  unless_memoized :
      Env
      → Runner
      → Gate
      → Bool
      → Step
      → Option Fields
      → Carry
      → String
      → Result (Option Memo)
      → Db
      → Db × StepEnd
  unfolding gated ask_gate
  unless_memoized e r g dry_run s resolved c input_digest (err x) db = (db, throws x)
  unless_memoized e r g dry_run s resolved c input_digest (ok (some memo)) db = (db, got memo)
  unless_memoized e r g dry_run s resolved c input_digest (ok none) db =
      gated e r dry_run s resolved c input_digest (ask_gate g s c.prior_digest c.prior_output) db

  -- One round of the loop, after the bound parameters are resolved.
  unfoldable pub run_step :
      Env → Runner → Gate → Bool → Step → Option Fields → Carry → String → Db → Db × StepEnd
  unfolding unless_memoized
  run_step e r g dry_run s resolved c input_digest db =
      unless_memoized e r g dry_run s resolved c input_digest
        (get_memoized_step sha256_hex db.step_results e.run_id s.step_id input_digest) db

  -- `transitionState(... "awaiting_data")` and the early return
  unfoldable pub hold_run : Env → Step → String → Carry → Db × Result (Unit {0}) → Db × LoopEnd
  hold_run e s reason c (db, ok t) = (db, held_at s.step_id reason c)
  hold_run e s reason c (db, err x) = (db, threw x)

  -- The loop over the steps, up to a hold or a throw.
  unfoldable pub step_loop : Env → Runner → Gate → Bool → List Step → Carry → Db → Db × LoopEnd
  step_loop e r g dry_run [] c db = (db, finished c)
  step_loop e r g dry_run (s ∷ ss) c db = elim (resolve_bound_params s c.outputs) [
    | err x ↦ (db, threw x)
    | ok resolved ↦
        let input_digest =
          step_input_digest sha256_hex e.run_id s c.prior_digest dry_run resolved in
        let (db', end') = run_step e r g dry_run s resolved c input_digest db in
        elim end' [
          | got memo ↦ step_loop e r g dry_run ss (carry_on c s input_digest memo) db'
          | holds reason ↦
              hold_run e s reason c (transition_state sha256_hex e (some running) awaiting_data db')
          | throws x ↦ (db', threw x)
        ]
  ]

  unfoldable pub execution_hash_of : String → String → List StepDigest → String
  unfolding digest_items
  execution_hash_of run_id manifest_digest digests = sha256_ref sha256_hex (
      obj (
        field "run_id" (str run_id) (
          field "workflow_manifest_digest" (str manifest_digest)
            (field "steps" (arr (digest_items digests)) end))))

  unfoldable pub complete : Env → Carry → Exec RunResult
  unfolding update_hash
  complete e c db =
      let hash = execution_hash_of e.run_id e.manifest_digest c.digests in
      and_then
        (transition_state sha256_hex e (some running) completed
          (record db { runs = update_hash db.runs e.run_id hash }))
        (λ _. pure (ended completed (some hash) c.digests))

  -- The catch: the run fails, and the error is thrown on unless the transition throws another.
  unfoldable pub settle : Env → Db × LoopEnd → Db × Result RunResult
  unfolding complete
  settle e (db, finished c) = complete e c db
  settle e (db, held_at step_id reason c) = (db, ok (held step_id reason c.digests))
  settle e (db, threw x) =
      and_then (transition_state sha256_hex e (some running) failed db) (λ _. throw x)

  unfoldable pub create_run : Env → Manifest → Bool → Exec (Unit {0})
  create_run e m dry_run db = elim (get db.runs e.run_id) [
    | some r ↦ (db, ok tt)
    | none ↦
        let fresh : Run = record {
          workflow_manifest_digest = e.manifest_digest;
          manifest = m;
          dry_run = dry_run;
          state = draft;
          execution_hash = none;
          created_at = e.now;
        } in
        and_then
          (transition_state sha256_hex e none draft
            (record db { runs = set db.runs e.run_id fresh }))
          (λ _ db1.
            and_then (transition_state sha256_hex e (some draft) validated db1)
              (λ _ db2. transition_state sha256_hex e (some validated) queued db2))
  ]

  -- A waiting run is set running first.
  unfoldable pub resume : Env → Runner → Gate → Bool → List Step → State → Exec RunResult
  resume e r g dry_run steps from db =
      and_then (transition_state sha256_hex e (some from) running db)
        (λ _ db'. settle e (step_loop e r g dry_run steps start db'))

  -- From the state that the row has; a terminal run is only reported.
  unfoldable pub proceed :
      Env → Runner → Gate → Bool → List Step → State → Option String → Exec RunResult
  proceed e r g dry_run steps queued hash db = resume e r g dry_run steps queued db
  proceed e r g dry_run steps awaiting_data hash db = resume e r g dry_run steps awaiting_data db
  proceed e r g dry_run steps running hash db = settle e (step_loop e r g dry_run steps start db)
  proceed e r g dry_run steps other hash db = (db, ok (ended other hash []))

  unfoldable pub advance : Env → Runner → Gate → Bool → List Step → Option Run → Exec RunResult
  advance e r g dry_run steps none db = (db, err (unknown_run e.run_id))
  advance e r g dry_run steps (some row) db =
      proceed e r g dry_run steps row.state row.execution_hash db

  unfoldable pub env_for : String → Manifest → Items → String → Env
  env_for run_id m humans now = record {
    run_id = run_id;
    manifest_digest = sha256_ref sha256_hex m.json;
    humans = humans;
    now = now;
  }

  unfoldable pub execute_run :
      String → String → Manifest → Runner → Bool → Items → Gate → Exec RunResult
  unfolding env_for
  execute_run now run_id m r dry_run humans g db =
      let e = env_for run_id m humans now in
      and_then (db, validate_manifest_bindings (record_digest sha256_hex) m)
        (λ _ db0.
          and_then (db0, plan_steps (record_digest sha256_hex) m)
            (λ steps db1.
              and_then (create_run e m dry_run db1)
                (λ _ db2. advance e r g dry_run steps (get db2.runs run_id) db2)))

  -- The loop of `replayExecutionHash`: memoized results only.
  unfoldable pub replay_steps : List StepResult → String → Bool → List Step → Carry → Result Carry
  replay_steps table run_id dry_run [] c = ok c
  replay_steps table run_id dry_run (s ∷ ss) c = elim (resolve_bound_params s c.outputs) [
    | err x ↦ err x
    | ok resolved ↦
        let input_digest = step_input_digest sha256_hex run_id s c.prior_digest dry_run resolved in
        elim (get_memoized_step sha256_hex table run_id s.step_id input_digest) [
          | err x ↦ err x
          | ok none ↦ err (missing_result s.step_id)
          | ok (some memo) ↦ replay_steps table run_id dry_run ss (carry_on c s input_digest memo)
        ]
  ]

  hash_of_replay : String → Run → Result Carry → Result String
  hash_of_replay run_id row (err x) = err x
  hash_of_replay run_id row (ok c) =
      ok (execution_hash_of run_id row.workflow_manifest_digest c.digests)

  pub replay_plan : List StepResult → String → Run → Result (List Step) → Result String
  unfolding hash_of_replay
  replay_plan table run_id row (err x) = err x
  replay_plan table run_id row (ok steps) =
      hash_of_replay run_id row (replay_steps table run_id row.dry_run steps start)

  unfoldable pub replay_execution_hash : Db → String → Result String
  unfolding replay_plan
  replay_execution_hash db run_id = elim (get db.runs run_id) [
    | none ↦ err (unknown_run run_id)
    | some row ↦
        replay_plan db.step_results run_id row (plan_steps (record_digest sha256_hex) row.manifest)
  ]
