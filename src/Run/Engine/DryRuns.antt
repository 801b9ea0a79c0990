-- ===== src/Run/Engine/DryRuns.antt =====
-- A dry run of `executeRun` (hub/run.mjs) and the step runner.
use ainumbers_helm.Json.{Json, Items, Fields}
use ainumbers_helm.Journal.{Journal, record_digest}
use ainumbers_helm.Prelude.{
  ℕ, String, ◌≡◌, refl, ◌∙◌, ap, true, Option, none, some, List, [], ◌∷◌, inl, inr,
}
use ainumbers_helm.Prelude.Dict.{get}
use ainumbers_helm.Run.Manifest.{Manifest, Step, Result, ok, err}
use ainumbers_helm.Run.Plan.{plan_steps, validate_manifest_bindings}
use ainumbers_helm.Run.Tables.{
  State, draft, validated, queued, running, awaiting_data, completed, failed, cancelled, Run, Db,
  Env, Memo, Exec, and_then, resolve_bound_params, step_input_digest, transition_state,
}
use ainumbers_helm.Run.Engine.{
  Runner, Gate, Carry, StepEnd, got, holds, throws, start, run_step, unless_memoized, gated,
  produce, step_loop, settle, create_run, resume, proceed, advance, execute_run,
}
use ainumbers_helm.Run.Engine.Replay.{Result-cases}

-- What a runner does with a step.
abbrev pub Act : Type 0
Act = Step → Option Fields → Option String → Journal → Journal × Result Json

and_then-cong :
    {A B : Type 0} (res : Db × Result A) (f g : A → Exec B)
    → ((a : A) (db : Db) → f a db ≡ g a db)
    → and_then res f ≡ and_then res g
and_then-cong (db, ok a) f g same = same a db
and_then-cong (db, err x) f g same = refl

module _ (sha256_hex : List ℕ → String) where
  gated_dry :
      (e : Env) (r : Runner) (f : Act) (s : Step) (p : Option Fields) (c : Carry) (digest : String)
      → (asked : Result (Option String)) (db : Db)
      → gated sha256_hex e (record r { run_step = f }) true s p c digest asked db
        ≡ gated sha256_hex e r true s p c digest asked db
  unfolding gated produce
  gated_dry e r f s p c digest (err x) db = refl
  gated_dry e r f s p c digest (ok (some reason)) db = refl
  gated_dry e r f s p c digest (ok none) db = refl

  unless_memoized_dry :
      (e : Env) (r : Runner) (f : Act) (g : Gate) (s : Step) (p : Option Fields) (c : Carry)
      → (digest : String) (m : Result (Option Memo)) (db : Db)
      → unless_memoized sha256_hex e (record r { run_step = f }) g true s p c digest m db
        ≡ unless_memoized sha256_hex e r g true s p c digest m db
  unfolding unless_memoized
  unless_memoized_dry e r f g s p c digest (err x) db = refl
  unless_memoized_dry e r f g s p c digest (ok (some memo)) db = refl
  unless_memoized_dry e r f g s p c digest (ok none) db = gated_dry e r f s p c digest _ db

  run_step_dry :
      (e : Env) (r : Runner) (f : Act) (g : Gate) (s : Step) (p : Option Fields) (c : Carry)
      → (digest : String) (db : Db)
      → run_step sha256_hex e (record r { run_step = f }) g true s p c digest db
        ≡ run_step sha256_hex e r g true s p c digest db
  unfolding run_step
  run_step_dry e r f g s p c digest db = unless_memoized_dry e r f g s p c digest _ db

  round_dry :
      (e : Env) (r : Runner) (f : Act) (g : Gate) (s : Step) (ss : List Step) (c : Carry) (db : Db)
      → (p : Option Fields) (res : Db × StepEnd) → resolve_bound_params s c.outputs ≡ ok p
      → run_step sha256_hex e r g true s p c
          (step_input_digest sha256_hex e.run_id s c.prior_digest true p)
          db
        ≡ res
      → ((c1 : Carry) (db1 : Db)
          → step_loop sha256_hex e (record r { run_step = f }) g true ss c1 db1
            ≡ step_loop sha256_hex e r g true ss c1 db1)
      → step_loop sha256_hex e (record r { run_step = f }) g true (s ∷ ss) c db
        ≡ step_loop sha256_hex e r g true (s ∷ ss) c db
  unfolding step_loop
  round_dry e r f g s ss c db p (db1, got memo) h made rest =
      let same =
        run_step_dry e r f g s p c (step_input_digest sha256_hex e.run_id s c.prior_digest true p)
          db
        ∙ made in
      rw (step_loop, h, same, same, made, made) (rest _ db1)
  round_dry e r f g s ss c db p (db1, holds reason) h made rest =
      let same =
        run_step_dry e r f g s p c (step_input_digest sha256_hex e.run_id s c.prior_digest true p)
          db
        ∙ made in
      rw (step_loop, h, same, same, made, made) refl
  round_dry e r f g s ss c db p (db1, throws x) h made rest =
      let same =
        run_step_dry e r f g s p c (step_input_digest sha256_hex e.run_id s c.prior_digest true p)
          db
        ∙ made in
      rw (step_loop, h, same, same, made, made) refl

  step_loop_dry :
      (e : Env) (r : Runner) (f : Act) (g : Gate) (ss : List Step) (c : Carry) (db : Db)
      → step_loop sha256_hex e (record r { run_step = f }) g true ss c db
        ≡ step_loop sha256_hex e r g true ss c db
  unfolding step_loop
  step_loop_dry e r f g [] c db = refl
  step_loop_dry e r f g (s ∷ ss) c db = elim (Result-cases (resolve_bound_params s c.outputs)) [
    | inr (x, h) ↦ rw (step_loop, h) refl
    | inl (p, h) ↦
        round_dry e r f g s ss c db p _ h refl (λ c1 db1. step_loop_dry e r f g ss c1 db1)
  ]

  resume_dry :
      (e : Env) (r : Runner) (f : Act) (g : Gate) (steps : List Step) (from : State) (db : Db)
      → resume sha256_hex e (record r { run_step = f }) g true steps from db
        ≡ resume sha256_hex e r g true steps from db
  unfolding resume
  resume_dry e r f g steps from db =
      and_then-cong (transition_state sha256_hex e (some from) running db) _ _
        (λ a db'. ap (settle sha256_hex e) (step_loop_dry e r f g steps start db'))

  proceed_dry :
      (e : Env) (r : Runner) (f : Act) (g : Gate) (steps : List Step) (state : State)
      → (hash : Option String) (db : Db)
      → proceed sha256_hex e (record r { run_step = f }) g true steps state hash db
        ≡ proceed sha256_hex e r g true steps state hash db
  unfolding proceed
  proceed_dry e r f g steps queued hash db = resume_dry e r f g steps queued db
  proceed_dry e r f g steps awaiting_data hash db = resume_dry e r f g steps awaiting_data db
  proceed_dry e r f g steps running hash db =
      ap (settle sha256_hex e) (step_loop_dry e r f g steps start db)
  proceed_dry e r f g steps draft hash db = refl
  proceed_dry e r f g steps validated hash db = refl
  proceed_dry e r f g steps completed hash db = refl
  proceed_dry e r f g steps failed hash db = refl
  proceed_dry e r f g steps cancelled hash db = refl

  advance_dry :
      (e : Env) (r : Runner) (f : Act) (g : Gate) (steps : List Step) (o : Option Run) (db : Db)
      → advance sha256_hex e (record r { run_step = f }) g true steps o db
        ≡ advance sha256_hex e r g true steps o db
  unfolding advance
  advance_dry e r f g steps none db = refl
  advance_dry e r f g steps (some row) db =
      proceed_dry e r f g steps row.state row.execution_hash db

  -- A dry run never runs a step: another runner with the same `canDispatch` gives the same result and
  -- leaves the same tables, whatever it would do with a step.
  pub dry_run_ignores_runner :
      (now run_id : String) (m : Manifest) (r : Runner) (f : Act) (humans : Items) (g : Gate)
      → (db : Db)
      → execute_run sha256_hex now run_id m (record r { run_step = f }) true humans g db
        ≡ execute_run sha256_hex now run_id m r true humans g db
  unfolding execute_run
  dry_run_ignores_runner now run_id m r f humans g db =
      and_then-cong (db, validate_manifest_bindings (record_digest sha256_hex) m) _ _
        (λ a db0.
          and_then-cong (db0, plan_steps (record_digest sha256_hex) m) _ _
            (λ steps db1.
              and_then-cong (create_run sha256_hex _ m true db1) _ _
                (λ b db2. advance_dry _ r f g steps (get db2.runs run_id) db2)))
