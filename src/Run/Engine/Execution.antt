-- ===== src/Run/Engine/Execution.antt =====
-- `executeRun` of hub/run.mjs keeps the deterministic-replay gate for every run of the tables.
use ainumbers_helm.Json.{Items}
use ainumbers_helm.Journal.{record_digest}
use ainumbers_helm.Prelude.{
  ℕ, String, ◌≡◌, refl, sym, ◌∙◌, Bool, Option, none, some, List, inl, inr, Option-cases,
}
use ainumbers_helm.Prelude.Dict.{get, set}
use ainumbers_helm.Run.Manifest.{Manifest, Step, ok}
use ainumbers_helm.Run.Plan.{plan_steps, validate_manifest_bindings}
use ainumbers_helm.Run.Tables.{
  State, draft, validated, queued, running, awaiting_data, completed, failed, cancelled, Run, Db,
  Env, transition_state,
}
use ainumbers_helm.Run.Engine.{
  Runner, Gate, start, create_run, resume, proceed, advance, env_for, execute_run,
  replay_execution_hash,
}
use ainumbers_helm.Run.Engine.Replay.{step_loop-Kept}
use ainumbers_helm.Run.Engine.Recorded.{replay_row, Sound, Sound-set}
use ainumbers_helm.Run.Engine.Determinism.{
  Fits, Fits-set, Good, and_then-cases, transition-Good, RowsSound, settle-Sound,
}

module _ (sha256_hex : List ℕ → String) where
  create_run-Good :
      (e : Env) (m : Manifest) (dry_run : Bool) (db : Db)
      → Good sha256_hex e m dry_run db
      → Good sha256_hex e m dry_run (create_run sha256_hex e m dry_run db).0
  unfolding create_run
  create_run-Good e m dry_run db g = elim (Option-cases (get db.runs e.run_id)) [
    | inr (row, found) ↦ rw (create_run, found) g
    | inl absent ↦
        let fresh : Run = record {
          workflow_manifest_digest = e.manifest_digest;
          manifest = m;
          dry_run = dry_run;
          state = draft;
          execution_hash = none;
          created_at = e.now;
        } in
        let P = Good sha256_hex e m dry_run in
        let inserted : P (record db { runs = set db.runs e.run_id fresh }) = record {
          sound = Sound-set sha256_hex db.runs db.step_results e.run_id fresh g.sound (λ k. cc);
          fits =
              Fits-set e m dry_run db.runs fresh
                (record { same_manifest = refl; same_mode = refl; same_digest = refl });
        } in
        let db1 =
          (transition_state sha256_hex e none draft
            (record db { runs = set db.runs e.run_id fresh })).0 in
        let first = transition-Good sha256_hex e m dry_run none draft _ (λ k. cc) inserted in
        rw (create_run, absent)
          (and_then-cases sha256_hex P
            (transition_state sha256_hex e none draft
              (record db { runs = set db.runs e.run_id fresh }))
            _ first
            (λ a h.
              let second =
                transition-Good sha256_hex e m dry_run (some draft) validated _ (λ k. cc) first in
              and_then-cases sha256_hex P (transition_state sha256_hex e (some draft) validated db1)
                _ second
                (λ b k.
                  transition-Good sha256_hex e m dry_run (some validated) queued _ (λ j. cc)
                    second)))
  ]

  resume-Sound :
      (e : Env) (r : Runner) (g : Gate) (m : Manifest) (dry_run : Bool) (steps : List Step)
      → (from : State) (db : Db) → plan_steps (record_digest sha256_hex) m ≡ ok steps
      → Good sha256_hex e m dry_run db
      → RowsSound sha256_hex (resume sha256_hex e r g dry_run steps from db).0
  unfolding resume RowsSound
  resume-Sound e r g m dry_run steps from db plan good =
      let moved = transition-Good sha256_hex e m dry_run (some from) running db (λ k. cc) good in
      and_then-cases sha256_hex (RowsSound sha256_hex)
        (transition_state sha256_hex e (some from) running db) _ moved.sound
        (λ a h.
          settle-Sound sha256_hex e m dry_run steps _ _
            (step_loop-Kept sha256_hex e r g dry_run steps start _) plan moved)

  proceed-Sound :
      (e : Env) (r : Runner) (g : Gate) (m : Manifest) (dry_run : Bool) (steps : List Step)
      → (state : State) (hash : Option String) (db : Db)
      → plan_steps (record_digest sha256_hex) m ≡ ok steps
      → Good sha256_hex e m dry_run db
      → RowsSound sha256_hex (proceed sha256_hex e r g dry_run steps state hash db).0
  unfolding proceed RowsSound
  proceed-Sound e r g m dry_run steps queued hash db plan good =
      resume-Sound e r g m dry_run steps queued db plan good
  proceed-Sound e r g m dry_run steps awaiting_data hash db plan good =
      resume-Sound e r g m dry_run steps awaiting_data db plan good
  proceed-Sound e r g m dry_run steps running hash db plan good =
      settle-Sound sha256_hex e m dry_run steps db _
        (step_loop-Kept sha256_hex e r g dry_run steps start db) plan good
  proceed-Sound e r g m dry_run steps draft hash db plan good = good.sound
  proceed-Sound e r g m dry_run steps validated hash db plan good = good.sound
  proceed-Sound e r g m dry_run steps completed hash db plan good = good.sound
  proceed-Sound e r g m dry_run steps failed hash db plan good = good.sound
  proceed-Sound e r g m dry_run steps cancelled hash db plan good = good.sound

  advance-Sound :
      (e : Env) (r : Runner) (g : Gate) (m : Manifest) (dry_run : Bool) (steps : List Step)
      → (row : Option Run) (db : Db) → plan_steps (record_digest sha256_hex) m ≡ ok steps
      → Good sha256_hex e m dry_run db
      → RowsSound sha256_hex (advance sha256_hex e r g dry_run steps row db).0
  unfolding advance RowsSound
  advance-Sound e r g m dry_run steps none db plan good = good.sound
  advance-Sound e r g m dry_run steps (some row) db plan good =
      proceed-Sound e r g m dry_run steps row.state row.execution_hash db plan good

  -- The gate as the source states it: each completed run has a recorded hash, and a replay from
  -- the tables alone returns it.
  pub record Replayable (db : Db) : Type 0 where
    pub at :
        (run_id : String) (row : Run)
        → get db.runs run_id ≡ some row
        → row.state ≡ completed
        → (h : String) × (row.execution_hash ≡ some h)
          × (replay_execution_hash sha256_hex db run_id ≡ ok h)

  found_row :
      (db : Db) (run_id : String) (row : Run)
      → get db.runs run_id ≡ some row
      → replay_execution_hash sha256_hex db run_id
        ≡ replay_row sha256_hex db.step_results run_id row
  unfolding replay_execution_hash replay_row
  found_row db run_id row found = rw (replay_execution_hash, found) refl

  -- Let every completed run of the tables replay to its recorded hash, and let the call's run be
  -- new or have the manifest, its digest and the mode that the call is given. Whatever `executeRun` does then
  -- (it rejects the manifest, holds, fails, throws or completes, for any runner and any gate),
  -- every completed run of the tables that it leaves has a recorded hash, and a replay from the
  -- stored results alone, with no runner, returns just that hash.
  pub execute_run_replays :
      (now run_id : String) (m : Manifest) (r : Runner) (dry_run : Bool) (humans : Items) (g : Gate)
      → (db : Db) → Replayable db
      → Fits (env_for sha256_hex run_id m humans now) m dry_run db.runs
      → Replayable (execute_run sha256_hex now run_id m r dry_run humans g db).0
  unfolding execute_run RowsSound
  execute_run_replays now run_id m r dry_run humans g db replayable fits =
      let e = env_for sha256_hex run_id m humans now in
      let s : Sound sha256_hex db.runs db.step_results = record {
        at = λ id row found k.
            let q = replayable.at id row found k in
            record { hash = q.0; recorded = q.1; replayed = sym (found_row db id row found) ∙ q.2 };
      } in
      let good : Good sha256_hex e m dry_run db = record { sound = s; fits = fits } in
      let P = RowsSound sha256_hex in
      let left : P (execute_run sha256_hex now run_id m r dry_run humans g db).0 =
        and_then-cases sha256_hex P (db, validate_manifest_bindings (record_digest sha256_hex) m) _
          s
          (λ a h.
            and_then-cases sha256_hex P (db, plan_steps (record_digest sha256_hex) m) _ s
              (λ steps plan.
                let made = create_run-Good e m dry_run db good in
                and_then-cases sha256_hex P (create_run sha256_hex e m dry_run db) _ made.sound
                  (λ b k. advance-Sound e r g m dry_run steps _ _ plan made))) in
      record {
        at = λ id row found k.
            let q = left.at id row found k in
            (q.hash, q.recorded, found_row _ id row found ∙ q.replayed);
      }
