-- ===== src/Run/Engine/Determinism.antt =====
-- `executeRun` of hub/run.mjs against `replayExecutionHash`, for every run of the tables.
use ainumbers_helm.Journal.{record_digest}
use ainumbers_helm.Prelude.{
  ℕ, String, ◌≡◌, refl, subst, Bool, Option, some, List, inl, inr, str_eq_refl, Option-cases,
}
use ainumbers_helm.Prelude.Dict.{Dict, get, set, get-set}
use ainumbers_helm.Run.Manifest.{Manifest, Step, Result, ok, err}
use ainumbers_helm.Run.Plan.{plan_steps}
use ainumbers_helm.Run.Tables.{
  State, running, awaiting_data, completed, failed, Run, Db, Env, StepResult, Exec, and_then,
  transition_state, update_state,
}
use ainumbers_helm.Run.Engine.{
  Carry, LoopEnd, finished, held_at, threw, start, execution_hash_of, update_hash, replay_steps,
  complete, settle, replay_plan, hash_of_replay,
}
use ainumbers_helm.Run.Engine.Moves.{transition-cases}
use ainumbers_helm.Run.Engine.Replay.{LoopKept}
use ainumbers_helm.Run.Engine.Rounds.{Preserves-refl}
use ainumbers_helm.Run.Engine.Recorded.{
  Recorded, replay_row, Sound, Sound-Preserves, Sound-set, update_state-Sound,
}

-- The row has the manifest, the mode and the manifest digest of a call.
pub record SameRun (e : Env) (m : Manifest) (dry_run : Bool) (row : Run) : Type 0 where
  pub same_manifest : row.manifest ≡ m
  pub same_mode : row.dry_run ≡ dry_run
  pub same_digest : row.workflow_manifest_digest ≡ e.manifest_digest

pub record Fits (e : Env) (m : Manifest) (dry_run : Bool) (runs : Dict Run) : Type 0 where
  pub at : (row : Run) → get runs e.run_id ≡ some row → SameRun e m dry_run row

pub Fits-set :
    (e : Env) (m : Manifest) (dry_run : Bool) (runs : Dict Run) (row : Run)
    → SameRun e m dry_run row
    → Fits e m dry_run (set runs e.run_id row)
Fits-set e m dry_run runs row s = record {
  at = λ other h.
      let found : get (set runs e.run_id row) e.run_id ≡ some row =
        rw (get-set, str_eq_refl e.run_id) refl in
      let same : row ≡ other = cc in subst (SameRun e m dry_run) same s;
}

update_state-Fits :
    (e : Env) (m : Manifest) (dry_run : Bool) (runs : Dict Run) (to : State)
    → Fits e m dry_run runs
    → Fits e m dry_run (update_state runs e.run_id to)
unfolding update_state
update_state-Fits e m dry_run runs to f = elim (Option-cases (get runs e.run_id)) [
  | inl absent ↦ rw (update_state, absent) f
  | inr (row, found) ↦
      let s = f.at row found in
      rw (update_state, found)
        (Fits-set e m dry_run runs (record row { state = to })
          (record {
            same_manifest = s.same_manifest;
            same_mode = s.same_mode;
            same_digest = s.same_digest;
          }))
]

module _ (sha256_hex : List ℕ → String) where
  pub record Good (e : Env) (m : Manifest) (dry_run : Bool) (db : Db) : Type 0 where
    pub sound : Sound sha256_hex db.runs db.step_results
    pub fits : Fits e m dry_run db.runs

  -- What holds when the first call throws, and after the second, holds after both.
  pub and_then-cases :
      {A B : Type 0} (P : Db → Type 0) (res : Db × Result A) (f : A → Exec B)
      → P res.0
      → ((a : A) → res.1 ≡ ok a → P (f a res.0).0)
      → P (and_then res f).0
  and_then-cases P (db, ok a) f p next = next a refl
  and_then-cases P (db, err x) f p next = p

  pub transition-Good :
      (e : Env) (m : Manifest) (dry_run : Bool) (from : Option State) (to : State) (db : Db)
      → (to ≡ completed → ⊥)
      → Good e m dry_run db
      → Good e m dry_run (transition_state sha256_hex e from to db).0
  transition-Good e m dry_run from to db open_ g = elim (transition-cases sha256_hex e from to db) [
    | inl k ↦
        rw (k.made, k.runs_moved, k.results_kept)
          (record {
            sound = update_state-Sound sha256_hex db.runs db.step_results e.run_id to g.sound open_;
            fits = update_state-Fits e m dry_run db.runs to g.fits;
          })
    | inr k ↦
        rw (k.made) (record {
          sound = rw (k.runs_kept, k.results_kept) g.sound;
          fits = rw k.runs_kept g.fits;
        })
  ]

  hash-Recorded :
      (e : Env) (m : Manifest) (dry_run : Bool) (steps : List Step) (c : Carry)
      (t : List StepResult)
      → (row : Run) (to : State) → SameRun e m dry_run row
      → plan_steps (record_digest sha256_hex) m ≡ ok steps
      → replay_steps sha256_hex t e.run_id dry_run steps start ≡ ok c
      → Recorded sha256_hex t e.run_id (record row {
        state = to;
        execution_hash = some (execution_hash_of sha256_hex e.run_id e.manifest_digest c.digests);
      })
  unfolding replay_row replay_plan hash_of_replay
  hash-Recorded e m dry_run steps c t row to s plan replay = record {
    hash = _;
    recorded = refl;
    replayed = rw (s.same_manifest, plan, s.same_mode, replay, s.same_digest) refl;
  }

  -- The rows after the hash is written and the run is set completed, or only the first of these.
  completed-Sound :
      (runs : Dict Run) (t : List StepResult) (run_id hash : String)
      → Sound sha256_hex runs t
      → ((row : Run) (to : State)
          → get runs run_id ≡ some row
          → Recorded sha256_hex t run_id (record row { state = to; execution_hash = some hash }))
      → Sound sha256_hex (update_hash runs run_id hash) t
        × Sound sha256_hex (update_state (update_hash runs run_id hash) run_id completed) t
  unfolding update_hash update_state
  completed-Sound runs t run_id hash s r = elim (Option-cases (get runs run_id)) [
    | inl absent ↦
        (rw (update_hash, absent) s, rw (update_hash, absent) (rw (update_state, absent) s))
    | inr (row, found) ↦
        let hashed : Run = record row { execution_hash = some hash } in
        let first = Sound-set sha256_hex runs t run_id hashed s (λ k. r row row.state found) in
        (
          rw (update_hash, found) first,
          rw (update_hash, found)
              (rw (update_state, get-set, str_eq_refl run_id)
                (Sound-set sha256_hex _ t run_id (record hashed { state = completed }) first
                  (λ k. r row completed found))),
        )
  ]

  complete-Sound :
      (e : Env) (m : Manifest) (dry_run : Bool) (steps : List Step) (c : Carry) (db : Db)
      → Good e m dry_run db
      → plan_steps (record_digest sha256_hex) m ≡ ok steps
      → replay_steps sha256_hex db.step_results e.run_id dry_run steps start ≡ ok c
      → Sound sha256_hex
          (complete sha256_hex e c db).0.runs
          (complete sha256_hex e c db).0.step_results
  unfolding complete
  complete-Sound e m dry_run steps c db g plan replay =
      let hash = execution_hash_of sha256_hex e.run_id e.manifest_digest c.digests in
      let both = completed-Sound db.runs db.step_results e.run_id hash g.sound (λ row to found.
        hash-Recorded e m dry_run steps c db.step_results row to (g.fits.at row found) plan
          replay) in
      elim (transition-cases sha256_hex e (some running) completed
        (record db { runs = update_hash db.runs e.run_id hash })) [
          | inl k ↦ rw k.made (rw (k.runs_moved, k.results_kept) both.1)
          | inr k ↦ rw k.made (rw (k.runs_kept, k.results_kept) both.0)
        ]

  unfoldable pub RowsSound : Db → Type 0
  RowsSound db = Sound sha256_hex db.runs db.step_results

  loop_left-Sound :
      (e : Env) (dry_run : Bool) (steps : List Step) (db : Db) (res : Db × LoopEnd)
      → LoopKept sha256_hex e dry_run steps start db res
      → RowsSound db
      → RowsSound res.0
  unfolding RowsSound
  loop_left-Sound e dry_run steps db res kept s = elim kept.runs_left [
    | inl same ↦ rw same (Sound-Preserves sha256_hex db.runs db.step_results _ s kept.preserved)
    | inr moved ↦ rw moved (
        update_state-Sound sha256_hex db.runs _ e.run_id awaiting_data
          (Sound-Preserves sha256_hex db.runs db.step_results _ s kept.preserved) (λ k. cc))
  ]

  pub transition-Sound :
      (e : Env) (from : Option State) (to : State) (db : Db)
      → (to ≡ completed → ⊥)
      → RowsSound db
      → RowsSound (transition_state sha256_hex e from to db).0
  unfolding RowsSound
  transition-Sound e from to db open_ s = elim (transition-cases sha256_hex e from to db) [
    | inl k ↦
        rw (k.made, k.runs_moved, k.results_kept)
          (update_state-Sound sha256_hex db.runs db.step_results e.run_id to s open_)
    | inr k ↦ rw (k.made, k.runs_kept, k.results_kept) s
  ]

  pub settle-Sound :
      (e : Env) (m : Manifest) (dry_run : Bool) (steps : List Step) (db : Db) (res : Db × LoopEnd)
      → LoopKept sha256_hex e dry_run steps start db res
      → plan_steps (record_digest sha256_hex) m ≡ ok steps
      → Good e m dry_run db
      → RowsSound (settle sha256_hex e res).0
  unfolding settle RowsSound
  settle-Sound e m dry_run steps db (db1, finished c) kept plan g =
      let k = kept.replayed c refl in
      complete-Sound e m dry_run steps c db1
        (record {
          sound = loop_left-Sound e dry_run steps db (db1, finished c) kept g.sound;
          fits = rw k.0 g.fits;
        })
        plan (k.1 db1.step_results (Preserves-refl db1.step_results))
  settle-Sound e m dry_run steps db (db1, held_at id reason c) kept plan g =
      loop_left-Sound e dry_run steps db (db1, held_at id reason c) kept g.sound
  settle-Sound e m dry_run steps db (db1, threw x) kept plan g =
      and_then-cases RowsSound (transition_state sha256_hex e (some running) failed db1) _
        (transition-Sound e (some running) failed db1 (λ k. cc)
          (loop_left-Sound e dry_run steps db (db1, threw x) kept g.sound))
        (λ a h.
          transition-Sound e (some running) failed db1 (λ k. cc)
            (loop_left-Sound e dry_run steps db (db1, threw x) kept g.sound))
