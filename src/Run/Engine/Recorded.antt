-- ===== src/Run/Engine/Recorded.antt =====
-- The deterministic-replay gate of hub/run.mjs, kept as an invariant of the tables.
use ainumbers_helm.Journal.{record_digest}
use ainumbers_helm.Prelude.{
  ℕ, String, ◌≡◌, refl, subst, Bool, Option, none, some, List, [], ◌∷◌, ◌⊎◌, inl, inr, str_eq,
  str_eq→eq, Bool-cases, Option-cases,
}
use ainumbers_helm.Prelude.Dict.{Dict, get, set, get-set}
use ainumbers_helm.Run.Manifest.{Step, Error, Result, ok, err}
use ainumbers_helm.Run.Plan.{plan_steps}
use ainumbers_helm.Run.Tables.{
  State, completed, Run, Memo, StepResult, resolve_bound_params, step_input_digest,
  get_memoized_step, update_state,
}
use ainumbers_helm.Run.Engine.{Carry, start, carry_on, replay_steps, replay_plan, hash_of_replay}
use ainumbers_helm.Run.Engine.Replay.{Result-cases}
use ainumbers_helm.Run.Engine.Rounds.{Preserves, memo-Preserves}

pub Memo-cases :
    (r : Result (Option Memo))
    → ((memo : Memo) × (r ≡ ok (some memo))) ⊎ ((r ≡ ok none) ⊎ ((x : Error) × (r ≡ err x)))
Memo-cases (ok (some memo)) = inl (memo, refl)
Memo-cases (ok none) = inr (inl refl)
Memo-cases (err x) = inr (inr (x, refl))

module _ (sha256_hex : List ℕ → String) where
  -- A replay that succeeds does so from every table with the same rows and more.
  replay_steps-Preserves :
      (t u : List StepResult) (run_id : String) (dry_run : Bool) (ss : List Step) (c c' : Carry)
      → Preserves t u
      → replay_steps sha256_hex t run_id dry_run ss c ≡ ok c'
      → replay_steps sha256_hex u run_id dry_run ss c ≡ ok c'
  unfolding replay_steps
  replay_steps-Preserves t u run_id dry_run [] c c' p h = h
  replay_steps-Preserves t u run_id dry_run (s ∷ ss) c c' p h =
      elim (Result-cases (resolve_bound_params s c.outputs)) [
        | inr (x, k) ↦ cc (rw (replay_steps, k) at h)
        | inl (b, k) ↦
            let digest = step_input_digest sha256_hex run_id s c.prior_digest dry_run b in
            elim (Memo-cases (get_memoized_step sha256_hex t run_id s.step_id digest)) [
              | inl (memo, m) ↦
                  rw
                    (
                      replay_steps,
                      k,
                      memo-Preserves sha256_hex t u run_id s.step_id digest memo p m,
                    )
                    (replay_steps-Preserves t u run_id dry_run ss (carry_on c s digest memo) c' p
                      (rw (replay_steps, k, m) at h))
              | inr (inl m) ↦ cc (rw (replay_steps, k, m) at h)
              | inr (inr (x, m)) ↦ cc (rw (replay_steps, k, m) at h)
            ]
      ]

  unfoldable pub replay_row : List StepResult → String → Run → Result String
  replay_row t run_id row =
      replay_plan sha256_hex t run_id row (plan_steps (record_digest sha256_hex) row.manifest)

  -- The recorded hash is what a replay from the table returns.
  pub record Recorded (t : List StepResult) (run_id : String) (row : Run) : Type 0 where
    pub hash : String
    pub recorded : row.execution_hash ≡ some hash
    pub replayed : replay_row t run_id row ≡ ok hash

  replay_plan-Preserves :
      (t u : List StepResult) (run_id : String) (row : Run) (plan : Result (List Step)) (h : String)
      → Preserves t u
      → replay_plan sha256_hex t run_id row plan ≡ ok h
      → replay_plan sha256_hex u run_id row plan ≡ ok h
  unfolding replay_plan hash_of_replay
  replay_plan-Preserves t u run_id row (err x) h p k = k
  replay_plan-Preserves t u run_id row (ok ss) h p k =
      elim (Result-cases (replay_steps sha256_hex t run_id row.dry_run ss start)) [
        | inl (c, f) ↦ rw (replay_steps-Preserves t u run_id row.dry_run ss start c p f) (rw f at k)
        | inr (x, f) ↦ cc (rw f at k)
      ]

  pub record Sound (runs : Dict Run) (t : List StepResult) : Type 0 where
    pub at :
        (run_id : String) (row : Run)
        → get runs run_id ≡ some row
        → row.state ≡ completed
        → Recorded t run_id row

  pub Sound-Preserves :
      (runs : Dict Run) (t u : List StepResult) → Sound runs t → Preserves t u → Sound runs u
  unfolding replay_row
  Sound-Preserves runs t u s p = record {
    at = λ run_id row h k.
        let r = s.at run_id row h k in
        record {
          hash = r.hash;
          recorded = r.recorded;
          replayed = replay_plan-Preserves t u run_id row _ r.hash p r.replayed;
        };
  }

  pub Sound-set :
      (runs : Dict Run) (t : List StepResult) (run_id : String) (row : Run)
      → Sound runs t
      → (row.state ≡ completed → Recorded t run_id row)
      → Sound (set runs run_id row) t
  Sound-set runs t run_id row s r = record {
    at = λ id other h k. elim (Bool-cases (str_eq run_id id)) [
      | inl same ↦
          let found : get (set runs run_id row) id ≡ some row = rw (get-set, same) refl in
          let e : row ≡ other = cc in
          subst (λ i. Recorded t i other) (str_eq→eq run_id id same)
            (subst (λ o. o.state ≡ completed → Recorded t run_id o) e r k)
      | inr differs ↦ s.at id other (rw (get-set, differs) at h) k
    ];
  }

  pub update_state-Sound :
      (runs : Dict Run) (t : List StepResult) (run_id : String) (to : State)
      → Sound runs t
      → (to ≡ completed → ⊥)
      → Sound (update_state runs run_id to) t
  unfolding update_state
  update_state-Sound runs t run_id to s open_ = elim (Option-cases (get runs run_id)) [
    | inl absent ↦ rw (update_state, absent) s
    | inr (row, found) ↦
        rw (update_state, found)
          (Sound-set runs t run_id (record row { state = to }) s (λ k. absurd (open_ k)))
  ]
