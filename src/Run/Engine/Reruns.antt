-- ===== src/Run/Engine/Reruns.antt =====
-- When `executeRun` of hub/run.mjs calls the step runner, and when it does not.
use ainumbers_helm.Json.{Fields}
use ainumbers_helm.Prelude.{ℕ, String, ◌≡◌, refl, ap, Bool, Option, some, List, [], ◌∷◌, inl, inr}
use ainumbers_helm.Run.Manifest.{Step, ok}
use ainumbers_helm.Run.Tables.{
  running, Db, Env, Memo, resolve_bound_params, step_input_digest, get_memoized_step,
}
use ainumbers_helm.Run.Engine.{
  Runner, Gate, Carry, carry_on, got, finished, start, run_step, unless_memoized, step_loop,
  replay_steps, settle, complete, proceed,
}
use ainumbers_helm.Run.Engine.Recorded.{Memo-cases}
use ainumbers_helm.Run.Engine.Replay.{Result-cases}

module _ (sha256_hex : List ℕ → String) where
  memoized_step :
      (e : Env) (r : Runner) (g : Gate) (dry_run : Bool) (s : Step) (p : Option Fields) (c : Carry)
      → (digest : String) (db : Db) (memo : Memo)
      → get_memoized_step sha256_hex db.step_results e.run_id s.step_id digest ≡ ok (some memo)
      → run_step sha256_hex e r g dry_run s p c digest db ≡ (db, got memo)
  unfolding run_step unless_memoized
  memoized_step e r g dry_run s p c digest db memo h = rw (run_step, h) refl

  loop_of_results :
      (e : Env) (r : Runner) (g : Gate) (dry_run : Bool) (ss : List Step) (c c' : Carry) (db : Db)
      → replay_steps sha256_hex db.step_results e.run_id dry_run ss c ≡ ok c'
      → step_loop sha256_hex e r g dry_run ss c db ≡ (db, finished c')
  unfolding step_loop replay_steps
  loop_of_results e r g dry_run [] c c' db h =
      let same : c ≡ c' = cc in ap (λ x. (db, finished x)) same
  loop_of_results e r g dry_run (s ∷ ss) c c' db h =
      elim (Result-cases (resolve_bound_params s c.outputs)) [
        | inr (x, k) ↦ cc (rw (replay_steps, k) at h)
        | inl (b, k) ↦
            let digest = step_input_digest sha256_hex e.run_id s c.prior_digest dry_run b in
            elim (Memo-cases
              (get_memoized_step sha256_hex db.step_results e.run_id s.step_id digest)) [
                | inl (memo, m) ↦
                    let stepped = memoized_step e r g dry_run s b c digest db memo m in
                    rw (step_loop, k, stepped, stepped)
                      (loop_of_results e r g dry_run ss (carry_on c s digest memo) c' db
                        (rw (replay_steps, k, m) at h))
                | inr (inl m) ↦ cc (rw (replay_steps, k, m) at h)
                | inr (inr (x, m)) ↦ cc (rw (replay_steps, k, m) at h)
              ]
      ]

  -- An interrupted run of whose steps all have stored results goes straight to its completion when it
  -- is executed again, with the step digests that a replay gives, whatever the runner and the gate
  -- are: neither is called, and the tables are those that were there.
  pub resumed_run_completes :
      (e : Env) (r : Runner) (g : Gate) (dry_run : Bool) (steps : List Step) (hash : Option String)
      → (c : Carry) (db : Db)
      → replay_steps sha256_hex db.step_results e.run_id dry_run steps start ≡ ok c
      → proceed sha256_hex e r g dry_run steps running hash db ≡ complete sha256_hex e c db
  unfolding proceed settle
  resumed_run_completes e r g dry_run steps hash c db h =
      rw (loop_of_results e r g dry_run steps start c db h) refl
