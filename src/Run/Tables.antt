-- ===== src/Run/Tables.antt =====
-- The tables of hub/run.mjs, its state machine and the memo of step results.
use ainumbers_helm.Json.{Json, null, bool, str, num, arr, obj, Fields, end, field, Items}
use ainumbers_helm.Json.{set_field}
use ainumbers_helm.Journal.{
  Row, Journal, Request, Appended, Outcome, done, thrown, append_entry, record_digest,
}
use ainumbers_helm.Prelude.{
  ℕ, ◌+◌, String, ◌<>◌, Bool, true, false, Option, none, some, List, [], ◌∷◌, ◌++◌, ltb, ◌==◌,
  str_eq, if◌then◌else◌, keep,
}
use ainumbers_helm.Prelude.Dict.{Dict, get, set}
use ainumbers_helm.Run.Manifest.{
  Manifest, Step, StepBinding, Error, Result, ok, err, tampered_result, unresolved_binding,
  illegal_transition, seq_drifted, journal_refused, ◌>>=◌,
}

-- PHASE1_STATES
pub data State : Type 0 where
  draft validated queued running awaiting_data completed failed cancelled : State

-- ALLOWED_TRANSITIONS; `none` is "__start__".
unfoldable pub is_allowed : Option State → State → Bool
is_allowed none draft = true
is_allowed (some draft) validated = true
is_allowed (some draft) cancelled = true
is_allowed (some validated) queued = true
is_allowed (some validated) cancelled = true
is_allowed (some queued) running = true
is_allowed (some queued) cancelled = true
is_allowed (some running) awaiting_data = true
is_allowed (some running) completed = true
is_allowed (some running) failed = true
is_allowed (some running) cancelled = true
is_allowed (some awaiting_data) running = true
is_allowed (some awaiting_data) cancelled = true
is_allowed _ _ = false

unfoldable pub state_name : State → String
state_name draft = "draft"
state_name validated = "validated"
state_name queued = "queued"
state_name running = "running"
state_name awaiting_data = "awaiting_data"
state_name completed = "completed"
state_name failed = "failed"
state_name cancelled = "cancelled"

-- a row of `runs`
pub record Run : Type 0 where
  pub workflow_manifest_digest : String
  pub manifest : Manifest
  pub dry_run : Bool
  pub state : State
  pub execution_hash : Option String
  pub created_at : String

-- a row of `step_results`
pub record StepResult : Type 0 where
  pub run_id : String
  pub step_id : String
  pub input_digest : String
  pub output : Json
  pub output_digest : String
  pub completed_at : String

pub record Db : Type 0 where
  pub journal : Journal
  pub runs : Dict Run
  pub step_results : List StepResult

abbrev pub same_key : String → String → String → StepResult → Bool
same_key run_id step_id input_digest r =
    if str_eq r.run_id run_id
    then (if str_eq r.step_id step_id then str_eq r.input_digest input_digest else false)
    else false

unfoldable pub select_result : List StepResult → String → String → String → Option StepResult
select_result [] run_id step_id input_digest = none
select_result (r ∷ rs) run_id step_id input_digest =
    let rest = select_result rs run_id step_id input_digest in
    if same_key run_id step_id input_digest r then some r else rest

max_seq : ℕ → List Row → ℕ
max_seq m [] = m
max_seq m (r ∷ rs) = max_seq (if ltb m r.seq then r.seq else m) rs

-- (MAX(seq) ?? 0) + 1
unfoldable pub next_journal_seq : Journal → ℕ
unfolding max_seq
next_journal_seq j = max_seq 0 j.rows + 1

resolve : Dict Json → String → List StepBinding → Fields → Result Fields
resolve outputs step_id [] resolved = ok resolved
resolve outputs step_id (b ∷ bs) resolved = elim (get outputs b.from_step_id) [
  | none ↦ err (unresolved_binding step_id b.feeds_param)
  | some v ↦ resolve outputs step_id bs (set_field resolved b.feeds_param v)
]

-- `none` is an unbound step.
unfoldable pub resolve_bound_params : Step → Dict Json → Result (Option Fields)
unfolding resolve
resolve_bound_params s outputs = elim s.bindings [
  | none ↦ ok none
  | some bs ↦ resolve outputs s.step_id bs end >>= λ fs. ok (some fs)
]

abbrev pub text_or_null : Option String → Json
text_or_null none = null
text_or_null (some s) = str s

with_bindings : Option Fields → Fields
with_bindings none = end
with_bindings (some fs) = field "resolved_bindings" (obj fs) end

unfoldable pub input_record : String → Step → Option String → Bool → Option Fields → Json
unfolding with_bindings
input_record run_id s prior dry_run resolved = obj (
    field "run_id" (str run_id) (
      field "step_id" (str s.step_id) (
        field "content_digest" (str s.content_digest) (
          field "prior_output_digest" (text_or_null prior)
            (field "dry_run" (bool dry_run) (with_bindings resolved))))))

pub record Memo : Type 0 where
  pub output : Json
  pub output_digest : String

-- What one call of the engine is given beside the manifest; `now` is what its clock shows.
pub record Env : Type 0 where
  pub run_id : String
  pub manifest_digest : String
  pub humans : Items
  pub now : String

-- A call changes the tables and returns or throws; what it wrote before it throws stays.
abbrev pub Exec : Type 0 → Type 0
Exec A = Db → Db × Result A

abbrev pub pure : {A : Type 0} → A → Exec A
pure a db = (db, ok a)

abbrev pub throw : {A : Type 0} → Error → Exec A
throw e db = (db, err e)

abbrev pub and_then : {A B : Type 0} → Db × Result A → (A → Exec B) → Db × Result B
and_then (db, ok a) f = f a db
and_then (db, err e) f = (db, err e)

-- The journal entry of a transition.
unfoldable pub transition_entry : Env → Option State → State → ℕ → Fields
transition_entry e from to seq = field "state" (str (state_name to)) (
    field "prev_state" (str (elim from [ none ↦ "draft" | some s ↦ state_name s ])) (
      field "journal_seq" (num seq) (
        field "run_id" (str e.run_id) (
          field "workflow_manifest_digest" (str e.manifest_digest) (
            field "period_start" (str e.now) (
              field "period_end" (str e.now) (
                field "reference_db_version" (str "helm-run-engine@1") (
                  field "triggering_input_digest" (str e.manifest_digest)
                    (field "humans_involved" (arr e.humans) end)))))))))

-- UPDATE runs SET state = ? WHERE run_id = ?
unfoldable pub update_state : Dict Run → String → State → Dict Run
update_state runs run_id to = elim (get runs run_id) [
  | none ↦ runs
  | some r ↦ set runs run_id (record r { state = to })
]

unfoldable pub transition_request : Env → Option State → State → Journal → Request
transition_request e from to j = record {
  stream_id = "run:" <> e.run_id;
  kind = "execution_state";
  run_id = some e.run_id;
  entry = transition_entry e from to (next_journal_seq j);
}

module _ (sha256_hex : List ℕ → String) where
  -- sha256ref(jcsDigestHex(obj))
  unfoldable pub sha256_ref : Json → String
  sha256_ref v = "sha256:" <> record_digest sha256_hex v

  unfoldable pub step_input_digest : String → Step → Option String → Bool → Option Fields → String
  unfolding sha256_ref
  step_input_digest run_id s prior dry_run resolved =
      sha256_ref (input_record run_id s prior dry_run resolved)

  unfoldable pub checked : StepResult → Result (Option Memo)
  unfolding sha256_ref
  checked r =
      if str_eq (sha256_ref r.output) r.output_digest
      then ok (some (record { output = r.output; output_digest = r.output_digest }))
      else err (tampered_result r.step_id)

  -- The digest is computed again on every read.
  unfoldable pub get_memoized_step :
      List StepResult → String → String → String → Result (Option Memo)
  unfolding checked
  get_memoized_step rs run_id step_id input_digest =
      elim (select_result rs run_id step_id input_digest) [ none ↦ ok none | some r ↦ checked r ]

  -- INSERT OR REPLACE
  unfoldable pub save_step_result :
      List StepResult → String → String → String → Json → String → List StepResult
  unfolding sha256_ref
  save_step_result rs run_id step_id input_digest output now =
      keep (λ r. if same_key run_id step_id input_digest r then false else true) rs
      ++ record {
        run_id = run_id;
        step_id = step_id;
        input_digest = input_digest;
        output = output;
        output_digest = sha256_ref output;
        completed_at = now;
      }
        ∷ []

  -- A journal sequence that is not the predicted one throws after the append.
  unfoldable pub finish_transition : Env → State → Outcome (Journal × Appended) → Exec (Unit {0})
  unfolding update_state
  finish_transition e to (thrown x) db = (db, err journal_refused)
  finish_transition e to (done (j, a)) db =
      if a.seq == next_journal_seq db.journal
      then (record db { journal = j; runs = update_state db.runs e.run_id to }, ok tt)
      else (record db { journal = j }, err (seq_drifted (next_journal_seq db.journal) a.seq))

  unfoldable pub transition_state : Env → Option State → State → Exec (Unit {0})
  transition_state e from to db =
      if is_allowed from to
      then finish_transition e to
          (append_entry sha256_hex e.now (transition_request e from to db.journal) db.journal) db
      else (db, err illegal_transition)
