-- ===== src/WatchScheduler/Tests.antt =====
-- A watch that is created, becomes due after its interval, and fires once; and a unit that passes the
-- checks although no cadence has it.
use ainumbers_helm.HaGate.Check.{Asked, Evaluated, member_text, member_json}
use ainumbers_helm.HaStore.{init_ha_tables}
use ainumbers_helm.Journal.{
  open_journal, append_entry, assert_art12, insert_row, full_entry, update_rh, head_rh, link,
  record_digest,
}
use ainumbers_helm.Json.{Json, str, num, obj, end, field, get_field, set_field, spread}
use ainumbers_helm.Prelude.{ℕ, String, false, none, some, List, [], ◌∷◌, ◌≡◌, refl}
use ainumbers_helm.Prelude.Dict.{get, set}
use ainumbers_helm.Run.Engine.{
  Runner, execute_run, env_for, create_run, advance, proceed, resume, settle, complete, update_hash,
  step_loop, execution_hash_of, start,
}
use ainumbers_helm.Run.Manifest.{Manifest, ok}
use ainumbers_helm.Run.Plan.{validate_manifest_bindings, plan_steps, base_steps}
use ainumbers_helm.Run.Tables.{
  is_allowed, next_journal_seq, sha256_ref, transition_entry, transition_request, update_state,
  finish_transition, transition_state,
}
use ainumbers_helm.WatchScheduler.Cadence.{
  cadence_unit, times, cadence_interval_ms, requested_interval, validate_watch_input,
  inherited_names,
}
use ainumbers_helm.WatchScheduler.Distinct.{Call, create, call, calls}
use ainumbers_helm.WatchScheduler.File.{
  Watch, Packs, create_watch, of_pack, of_mode, watch_of, add_watch, has_watch,
}
use ainumbers_helm.WatchScheduler.Loop.{
  Tables, baseline_of, after, is_watch_due, window_end, cadence_manifest, record_fired, fire_watch,
  tick_one, tick,
}
use ainumbers_helm.WatchScheduler.Spaced.{RowOf, tick_fires_due}

-- The hash of the tests keeps nothing but that there is one.
abbrev constant : List ℕ → String
constant bs = "00"

abbrev pack : Manifest
pack = record {
  connectors = [];
  attested_artifacts = [];
  nodes = [];
  gates = [];
  actions = [];
  connector_inputs = none;
  required_inputs = [];
  json = obj (field "name" (str "empty") end);
}

abbrev packs : Packs
packs = record { get_pack = λ id. some pack; validate_kernel_inputs = λ kernel params. none }

abbrev request : String → Json
request unit = obj (
    field "watch_id" (str "w") (
      field "pack_ref" (obj (field "pack_id" (str "p") (field "pack_digest" (str "sha256:00") end)))
        (field "cadence" (obj (field "unit" (str unit) (field "interval" (num 1) end))) (
          field "inputs_source" (obj (field "mode" (str "sample") end)) (
            field "created_by" (obj (field "id" (str "did:key:a") end))
              (field "consent_ref" (str "c") end))))))

abbrev history : List Call
history = create "id" 0 (request "hours") ∷ create "id" 5 (request "days") ∷ []

abbrev pending : Asked → Evaluated
pending q = record { status = "pending"; reason = "no approval" }

abbrev runner : Runner
runner = record { run_step = λ s resolved prior j. (j, ok (str s.step_id)); can_dispatch = none }

abbrev empty : Tables
empty = record {
  db = record { journal = open_journal; runs = []; step_results = [] };
  watch_runs = [];
}

abbrev after_tick : ℕ → Tables → Tables
after_tick now t =
    tick constant packs pending init_ha_tables runner (λ n. "now") (λ w. "r") now
      (calls constant packs history []) t

tick_fires_due_example :
    RowOf
      (calls constant packs history [])
      3600000
      "w"
      (get empty.watch_runs "w")
      (get (after_tick 3600000 empty).watch_runs "w")
tick_fires_due_example =
    tick_fires_due constant packs pending init_ha_tables runner (λ n. "now") history (λ w. "r")
      3600000 empty "w"

-- An unknown unit is refused, one that every object inherits is not.
unit_run : validate_watch_input (request "toString") ≡ []
unfolding validate_watch_input requested_interval cadence_interval_ms cadence_unit times
    inherited_names member_text member_json get_field
unit_run = refl

abbrev odd : Watch
odd = watch_of "id" 0 (request "toString") none

never_due_run : is_watch_due [] odd 1000000000000 ≡ some false
unfolding is_watch_due cadence_interval_ms cadence_unit times inherited_names watch_of member_text
    member_json get_field get after baseline_of
never_due_run = refl

fired_run :
    get (after_tick 3600000 empty).watch_runs "w"
    ≡ some (record { last_fired_at = 3600000; last_run_id = "r"; expected_by = 3600000 })
unfolding calls call create_watch of_pack of_mode watch_of add_watch has_watch tick tick_one
    is_watch_due cadence_interval_ms cadence_unit times inherited_names fire_watch window_end
    record_fired cadence_manifest after baseline_of validate_watch_input requested_interval
    member_text member_json get set execute_run env_for validate_manifest_bindings plan_steps
    base_steps create_run transition_state is_allowed finish_transition append_entry assert_art12
    insert_row full_entry get_field set_field spread transition_request transition_entry
    open_journal next_journal_seq update_state advance proceed resume settle complete update_hash
    step_loop sha256_ref record_digest execution_hash_of start update_rh head_rh link
fired_run = refl

-- A minute early nothing happens.
early_run : get (after_tick 3540000 empty).watch_runs "w" ≡ none
unfolding calls call create_watch of_pack of_mode watch_of add_watch has_watch tick tick_one
    is_watch_due cadence_interval_ms cadence_unit times inherited_names after baseline_of
    validate_watch_input requested_interval member_text member_json get get_field sha256_ref
    record_digest
early_run = refl
