-- ===== src/Run/Engine/Replay.antt =====
-- `replayExecutionHash` of hub/run.mjs against the step loop of `executeRun`.
use ainumbers_helm.Json.{Fields}
use ainumbers_helm.Prelude.{
  ℕ, String, ◌≡◌, refl, ap, ◌∙◌, Bool, Option, some, List, [], ◌∷◌, ◌⊎◌, inl, inr,
}
use ainumbers_helm.Run.Manifest.{Step, Error, Result, ok, err}
use ainumbers_helm.Run.Tables.{
  awaiting_data, running, Db, Env, Memo, StepResult, resolve_bound_params, step_input_digest,
  get_memoized_step, transition_state, update_state,
}
use ainumbers_helm.Run.Engine.{
  Runner, Gate, Carry, carry_on, StepEnd, got, holds, throws, LoopEnd, finished, held_at, run_step,
  hold_run, step_loop, replay_steps,
}
use ainumbers_helm.Run.Engine.Moves.{transition-cases}
use ainumbers_helm.Run.Engine.Rounds.{
  Preserves, Preserves-refl, Preserves-trans, StepKept, run_step-StepKept, memo-Preserves,
}

pub Result-cases :
    {A : Type 0} (r : Result A) → ((a : A) × (r ≡ ok a)) ⊎ ((x : Error) × (r ≡ err x))
Result-cases (ok a) = inl (a, refl)
Result-cases (err x) = inr (x, refl)

module _ (sha256_hex : List ℕ → String) where
  -- What the loop does to the tables; a loop that finished is replayed from its results.
  pub record LoopKept (e : Env) (dry_run : Bool) (ss : List Step) (c : Carry) (db : Db)
      (res : Db × LoopEnd) : Type 0 where
    pub preserved : Preserves db.step_results res.0.step_results
    pub runs_left :
        (res.0.runs ≡ db.runs) ⊎ (res.0.runs ≡ update_state db.runs e.run_id awaiting_data)
    pub held_row :
        (step_id reason : String) (c' : Carry)
        → res.1 ≡ held_at step_id reason c'
        → res.0.runs ≡ update_state db.runs e.run_id awaiting_data
    pub replayed :
        (c' : Carry)
        → res.1 ≡ finished c'
        → (res.0.runs ≡ db.runs)
          × ((t : List StepResult)
              → Preserves res.0.step_results t
              → replay_steps sha256_hex t e.run_id dry_run ss c ≡ ok c')

  hold_run-Kept :
      (e : Env) (dry_run : Bool) (ss : List Step) (c0 : Carry) (s : Step) (reason : String)
      → (c : Carry) (db db' : Db) → Preserves db.step_results db'.step_results
      → db'.runs ≡ db.runs
      → LoopKept e dry_run ss c0 db (
          hold_run sha256_hex e s reason c
            (transition_state sha256_hex e (some running) awaiting_data db'))
  unfolding hold_run
  hold_run-Kept e dry_run ss c0 s reason c db db' p same =
      elim (transition-cases sha256_hex e (some running) awaiting_data db') [
        | inl m ↦ rw m.made (record {
          preserved = rw m.results_kept p;
          runs_left = inr (rw same at m.runs_moved);
          held_row = λ a b c' h. rw same at m.runs_moved;
          replayed = λ c' h. cc;
        })
        | inr m ↦ rw m.made (record {
          preserved = rw m.results_kept p;
          runs_left = inl (m.runs_kept ∙ same);
          held_row = λ a b c' h. cc;
          replayed = λ c' h. cc;
        })
      ]

  replay_step :
      (t : List StepResult) (run_id : String) (dry_run : Bool) (s : Step) (ss : List Step)
      → (c : Carry) (p : Option Fields) (memo : Memo) → resolve_bound_params s c.outputs ≡ ok p
      → get_memoized_step sha256_hex t run_id s.step_id
          (step_input_digest sha256_hex run_id s c.prior_digest dry_run p)
        ≡ ok (some memo)
      → replay_steps sha256_hex t run_id dry_run (s ∷ ss) c
        ≡ replay_steps sha256_hex t run_id dry_run ss
            (carry_on c s (step_input_digest sha256_hex run_id s c.prior_digest dry_run p) memo)
  unfolding replay_steps
  replay_step t run_id dry_run s ss c p memo h k = rw (replay_steps, h, k) refl

  next_round :
      (e : Env) (r : Runner) (g : Gate) (dry_run : Bool) (s : Step) (ss : List Step) (c : Carry)
      → (db : Db) (p : Option Fields) (res : Db × StepEnd) → resolve_bound_params s c.outputs ≡ ok p
      → run_step sha256_hex e r g dry_run s p c
          (step_input_digest sha256_hex e.run_id s c.prior_digest dry_run p)
          db
        ≡ res
      → StepKept sha256_hex e s
          (step_input_digest sha256_hex e.run_id s c.prior_digest dry_run p)
          db
          res
      → ((c1 : Carry) (db1 : Db)
          → LoopKept e dry_run ss c1 db1 (step_loop sha256_hex e r g dry_run ss c1 db1))
      → LoopKept e dry_run (s ∷ ss) c db (step_loop sha256_hex e r g dry_run (s ∷ ss) c db)
  unfolding step_loop
  next_round e r g dry_run s ss c db p (db1, got memo) h made kept rest =
      let digest = step_input_digest sha256_hex e.run_id s c.prior_digest dry_run p in
      let k = rest (carry_on c s digest memo) db1 in
      rw (step_loop, h, made, made)
        (record {
          preserved = Preserves-trans kept.preserved k.preserved;
          runs_left = elim k.runs_left [
            | inl same ↦ inl (same ∙ kept.runs_kept)
            | inr moved ↦
                inr (moved ∙ ap (λ runs. update_state runs e.run_id awaiting_data) kept.runs_kept)
          ];
          held_row = λ a b c' f.
              k.held_row a b c' f
              ∙ ap (λ runs. update_state runs e.run_id awaiting_data) kept.runs_kept;
          replayed = λ c' f.
              let q = k.replayed c' f in
              (
                q.0 ∙ kept.runs_kept,
                λ t u.
                    replay_step t e.run_id dry_run s ss c p memo h (
                      memo-Preserves sha256_hex db1.step_results t e.run_id s.step_id digest memo
                        (Preserves-trans k.preserved u) (kept.recalled memo refl))
                    ∙ q.1 t u,
              );
        })
  next_round e r g dry_run s ss c db p (db1, holds reason) h made kept rest =
      rw (step_loop, h, made, made)
        (hold_run-Kept e dry_run (s ∷ ss) c s reason c db db1 kept.preserved kept.runs_kept)
  next_round e r g dry_run s ss c db p (db1, throws x) h made kept rest =
      rw (step_loop, h, made, made)
        (record {
          preserved = kept.preserved;
          runs_left = inl kept.runs_kept;
          held_row = λ a b c' k. cc;
          replayed = λ c' k. cc;
        })

  pub step_loop-Kept :
      (e : Env) (r : Runner) (g : Gate) (dry_run : Bool) (ss : List Step) (c : Carry) (db : Db)
      → LoopKept e dry_run ss c db (step_loop sha256_hex e r g dry_run ss c db)
  unfolding step_loop replay_steps
  step_loop-Kept e r g dry_run [] c db = record {
    preserved = Preserves-refl db.step_results;
    runs_left = inl refl;
    held_row = λ a b c' h. cc;
    replayed = λ c' h. (refl, λ t p. cc);
  }
  step_loop-Kept e r g dry_run (s ∷ ss) c db =
      elim (Result-cases (resolve_bound_params s c.outputs)) [
        | inl (p, h) ↦
            next_round e r g dry_run s ss c db p _ h refl
              (run_step-StepKept sha256_hex e r g dry_run s p c _ db)
              (λ c1 db1. step_loop-Kept e r g dry_run ss c1 db1)
        | inr (x, h) ↦
            rw (step_loop, h)
              (record {
                preserved = Preserves-refl db.step_results;
                runs_left = inl refl;
                held_row = λ a b c' k. cc;
                replayed = λ c' k. cc;
              })
      ]
