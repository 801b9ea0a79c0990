-- ===== src/Run/Engine/Reports.antt =====
-- What `executeRun` of hub/run.mjs returns, against the row of the run that it leaves.
use ainumbers_helm.Json.{Items}
use ainumbers_helm.Journal.{record_digest}
use ainumbers_helm.Prelude.{
  ℕ, String, ◌≡◌, refl, sym, subst, ◌∙◌, Bool, Option, none, some, List, str_eq_refl, inl, inr,
}
use ainumbers_helm.Prelude.Dict.{Dict, get, get-set}
use ainumbers_helm.Run.Manifest.{Manifest, Step, Result, ok, err}
use ainumbers_helm.Run.Plan.{plan_steps, validate_manifest_bindings}
use ainumbers_helm.Run.Tables.{
  State, draft, validated, queued, running, awaiting_data, completed, failed, cancelled, Run, Db,
  Env, Exec, and_then, transition_state, update_state,
}
use ainumbers_helm.Run.Engine.{
  Runner, Gate, Carry, LoopEnd, finished, held_at, threw, RunResult, ended, held, start,
  update_hash, execution_hash_of, complete, settle, create_run, resume, proceed, advance,
  execute_run, env_for, replay_execution_hash, StepDigest,
}
use ainumbers_helm.Run.Engine.Determinism.{Fits}
use ainumbers_helm.Run.Engine.Execution.{Replayable, execute_run_replays}
use ainumbers_helm.Run.Engine.Moves.{transition-cases}
use ainumbers_helm.Run.Engine.Replay.{LoopKept, step_loop-Kept}

Present : Dict Run → String → Type 0
Present runs run_id = (row : Run) × (get runs run_id ≡ some row)

update_state-Present :
    (runs : Dict Run) (run_id : String) (to : State)
    → Present runs run_id
    → (row : Run) × (get (update_state runs run_id to) run_id ≡ some row) × (row.state ≡ to)
unfolding Present update_state
update_state-Present runs run_id to (row, found) =
    (record row { state = to }, rw (update_state, found, get-set, str_eq_refl run_id) refl, refl)

-- The row says what was returned: the state and the hash, or that the run waits.
abbrev pub Reported : String → Db × Result RunResult → Type 0
Reported run_id (db, ok (ended state hash digests)) =
    (row : Run) × (get db.runs run_id ≡ some row)
    × (row.state ≡ state)
    × (row.execution_hash ≡ hash)
Reported run_id (db, ok (held step_id reason digests)) =
    (row : Run) × (get db.runs run_id ≡ some row) × (row.state ≡ awaiting_data)
Reported run_id (db, err x) = Unit

and_then-Reported :
    {A : Type 0} (run_id : String) (res : Db × Result A) (f : A → Exec RunResult)
    → ((a : A) → res.1 ≡ ok a → Reported run_id (f a res.0))
    → Reported run_id (and_then res f)
and_then-Reported run_id (db, ok a) f next = next a refl
and_then-Reported run_id (db, err x) f next = tt

module _ (sha256_hex : List ℕ → String) where
  complete-Reported :
      (e : Env) (c : Carry) (db : Db)
      → Present db.runs e.run_id
      → Reported e.run_id (complete sha256_hex e c db)
  unfolding complete Present update_hash update_state
  complete-Reported e c db (row, found) =
      let hash = execution_hash_of sha256_hex e.run_id e.manifest_digest c.digests in
      let hashed = update_hash db.runs e.run_id hash in
      elim (transition-cases sha256_hex e (some running) completed (record db { runs = hashed })) [
        | inr k ↦ rw k.made tt
        | inl k ↦ rw k.made (
          record row { state = completed; execution_hash = some hash },
          rw
              (
                k.runs_moved,
                update_hash,
                found,
                update_state,
                get-set,
                str_eq_refl e.run_id,
                get-set,
                str_eq_refl e.run_id,
              )
              refl,
          refl,
          refl,
        )
      ]

  settle-Reported :
      (e : Env) (dry_run : Bool) (steps : List Step) (db : Db) (res : Db × LoopEnd)
      → LoopKept sha256_hex e dry_run steps start db res
      → Present db.runs e.run_id
      → Reported e.run_id (settle sha256_hex e res)
  unfolding settle Present
  settle-Reported e dry_run steps db (db1, finished c) kept p =
      complete-Reported e c db1 (rw (kept.replayed c refl).0 p)
  settle-Reported e dry_run steps db (db1, held_at id reason c) kept p =
      rw (kept.held_row id reason c refl) (update_state-Present db.runs e.run_id awaiting_data p)
  settle-Reported e dry_run steps db (db1, threw x) kept p =
      and_then-Reported e.run_id (transition_state sha256_hex e (some running) failed db1) _
        (λ a h. tt)

  resume-Reported :
      (e : Env) (r : Runner) (g : Gate) (dry_run : Bool) (steps : List Step) (from : State)
      (db : Db)
      → Present db.runs e.run_id
      → Reported e.run_id (resume sha256_hex e r g dry_run steps from db)
  unfolding resume Present
  resume-Reported e r g dry_run steps from db p =
      elim (transition-cases sha256_hex e (some from) running db) [
        | inr k ↦ rw k.made tt
        | inl k ↦
            let (row, found, moved) = update_state-Present db.runs e.run_id running p in
            rw k.made (
              settle-Reported e dry_run steps k.after _
                (step_loop-Kept sha256_hex e r g dry_run steps start k.after)
                (row, rw k.runs_moved found))
      ]

  proceed-Reported :
      (e : Env) (r : Runner) (g : Gate) (dry_run : Bool) (steps : List Step) (state : State)
      → (hash : Option String) (db : Db) (row : Run) → get db.runs e.run_id ≡ some row
      → row.state ≡ state
      → row.execution_hash ≡ hash
      → Reported e.run_id (proceed sha256_hex e r g dry_run steps state hash db)
  unfolding proceed Present
  proceed-Reported e r g dry_run steps queued hash db row f s h =
      resume-Reported e r g dry_run steps queued db (row, f)
  proceed-Reported e r g dry_run steps awaiting_data hash db row f s h =
      resume-Reported e r g dry_run steps awaiting_data db (row, f)
  proceed-Reported e r g dry_run steps running hash db row f s h =
      settle-Reported e dry_run steps db _ (step_loop-Kept sha256_hex e r g dry_run steps start db)
        (row, f)
  proceed-Reported e r g dry_run steps draft hash db row f s h = (row, f, s, h)
  proceed-Reported e r g dry_run steps validated hash db row f s h = (row, f, s, h)
  proceed-Reported e r g dry_run steps completed hash db row f s h = (row, f, s, h)
  proceed-Reported e r g dry_run steps failed hash db row f s h = (row, f, s, h)
  proceed-Reported e r g dry_run steps cancelled hash db row f s h = (row, f, s, h)

  advance-Reported :
      (e : Env) (r : Runner) (g : Gate) (dry_run : Bool) (steps : List Step) (o : Option Run)
      → (db : Db) → get db.runs e.run_id ≡ o
      → Reported e.run_id (advance sha256_hex e r g dry_run steps o db)
  unfolding advance
  advance-Reported e r g dry_run steps none db f = tt
  advance-Reported e r g dry_run steps (some row) db f =
      proceed-Reported e r g dry_run steps row.state row.execution_hash db row f refl refl

  -- Whenever `executeRun` returns, for whatever tables, runner and gate, the row of the run that it
  -- leaves says the same: where it returns a state and a hash the row has that state and that hash,
  -- and where it returns a held step the row is in awaiting_data.
  pub execute_run-Reported :
      (now run_id : String) (m : Manifest) (r : Runner) (dry_run : Bool) (humans : Items) (g : Gate)
      → (db : Db) → Reported run_id (execute_run sha256_hex now run_id m r dry_run humans g db)
  unfolding execute_run
  execute_run-Reported now run_id m r dry_run humans g db =
      and_then-Reported run_id (db, validate_manifest_bindings (record_digest sha256_hex) m) _
        (λ a h.
          and_then-Reported run_id (db, plan_steps (record_digest sha256_hex) m) _
            (λ steps plan.
              and_then-Reported run_id (create_run sha256_hex _ m dry_run db) _
                (λ b k. advance-Reported _ r g dry_run steps _ _ refl)))

  completed_row :
      (run_id : String) (res : Db × Result RunResult) (hash : Option String) (ds : List StepDigest)
      → Reported run_id res
      → res.1 ≡ ok (ended completed hash ds)
      → (row : Run) × (get res.0.runs run_id ≡ some row)
        × (row.state ≡ completed)
        × (row.execution_hash ≡ hash)
  completed_row run_id (db, result) hash ds reported e =
      subst (λ x. Reported run_id (db, x)) e reported

  -- Let every completed run of the tables replay to its recorded hash, and let the call's run be new
  -- or have the manifest, its digest and the mode that the call is given. Then a call that returns the
  -- state completed returns a hash, and `replayExecutionHash` on the tables that it leaves returns
  -- the same hash.
  pub returned_hash_replays :
      (now run_id : String) (m : Manifest) (r : Runner) (dry_run : Bool) (humans : Items) (g : Gate)
      → (db : Db) (hash : Option String) (ds : List StepDigest) → Replayable sha256_hex db
      → Fits (env_for sha256_hex run_id m humans now) m dry_run db.runs
      → (execute_run sha256_hex now run_id m r dry_run humans g db).1 ≡ ok (ended completed hash ds)
      → (h : String) × (hash ≡ some h)
        × (replay_execution_hash sha256_hex
              (execute_run sha256_hex now run_id m r dry_run humans g db).0
              run_id
            ≡ ok h)
  returned_hash_replays now run_id m r dry_run humans g db hash ds replayable fits done =
      let res = execute_run sha256_hex now run_id m r dry_run humans g db in
      let (row, found, state, recorded) =
        completed_row run_id res hash ds (execute_run-Reported now run_id m r dry_run humans g db)
          done in
      let kept =
        execute_run_replays sha256_hex now run_id m r dry_run humans g db replayable fits in
      let (h, stored, replayed) = kept.at run_id row found state in
      (h, sym recorded ∙ stored, replayed)
