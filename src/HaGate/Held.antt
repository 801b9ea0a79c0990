-- ===== src/HaGate/Held.antt =====
-- findHeldGate of hub/ha-gate.mjs against the step loop of hub/run.mjs that asks the same gate.
use ainumbers_helm.HaGate.Check.{
  Asked, Evaluated, HeldGate, gate_check, held_by, policy_of, asked_of, ha_gate_check_for,
  with_preceding, scan,
}
use ainumbers_helm.HaStore.{Store}
use ainumbers_helm.Json.{Json}
use ainumbers_helm.Prelude.{
  ℕ, String, Bool, Option, none, some, List, [], ◌∷◌, All, ◌≡◌, ◌⊎◌, refl, sym, subst, Bool-cases,
  str_eq, Option-cases, inl, inr,
}
use ainumbers_helm.Prelude.Dict.{Dict}
use ainumbers_helm.Run.Engine.{Runner, Carry, carry_on, got, holds, hold_run, run_step, step_loop}
use ainumbers_helm.Run.Manifest.{Step, Error, Result, ok, err}
use ainumbers_helm.Run.Tables.{
  running, awaiting_data, Db, Memo, Env, resolve_bound_params, step_input_digest, get_memoized_step,
  transition_state,
}

Memo-cases :
    (r : Result (Option Memo))
    → ((e : Error) × (r ≡ err e)) ⊎ ((r ≡ ok none) ⊎ ((m : Memo) × (r ≡ ok (some m))))
Memo-cases (err e) = inl (e, refl)
Memo-cases (ok none) = inr (inl refl)
Memo-cases (ok (some m)) = inr (inr (m, refl))

-- The step takes no bound parameters.
abbrev pub IsUnbound : Step → Type 0
IsUnbound s = s.bindings ≡ none

unbound-Meaning :
    (step : Step) (outputs : Dict Json)
    → IsUnbound step
    → resolve_bound_params step outputs ≡ ok none
unfolding resolve_bound_params
unbound-Meaning step outputs u = rw (resolve_bound_params, u) refl

some_step : (h h' : HeldGate) → some h' ≡ some h → h.step_id ≡ h'.step_id
some_step h h' e = cc (e)

held_by-Step :
    (step : Step) (q : Asked) (v : Evaluated) (h : HeldGate)
    → held_by step q v ≡ some h
    → h.step_id ≡ step.step_id
unfolding held_by
held_by-Step step q v h g = elim (Bool-cases (str_eq v.status "satisfied")) [
  | inl a ↦ cc (rw (held_by, a) at g)
  | inr a ↦ elim (Bool-cases (str_eq v.status "override_active")) [
    | inl b ↦ cc (rw (held_by, a, b) at g)
    | inr b ↦ some_step h _ (rw (held_by, a, b) at g)
  ]
]

module _ (evaluate : Asked → Evaluated) (sha256_hex : List ℕ → String) (s : Store) (now : String)
    (e : Env) (r : Runner) (dry_run : Bool) where
  -- The loop holds the run at this step, for this reason, without a change to the tables before.
  pub record HoldsAt (h : HeldGate) (steps : List Step) (c : Carry) (db : Db) : Type 0 where
    pub step : Step
    pub carry : Carry
    pub same_step : step.step_id ≡ h.step_id
    pub held :
        step_loop sha256_hex e r (ha_gate_check_for evaluate s now) dry_run steps c db
        ≡ hold_run sha256_hex e step h.reason carry
            (transition_state sha256_hex e (some running) awaiting_data db)

  gate_check-Step :
      (step : Step) (digest : Option String) (output : Option Json) (h : HeldGate)
      → gate_check evaluate s now step digest output ≡ some h
      → h.step_id ≡ step.step_id
  unfolding gate_check
  gate_check-Step step digest output h g = elim (Option-cases (policy_of step.item.json)) [
    | inl m ↦ cc (rw (gate_check, m) at g)
    | inr (policy, m) ↦
        let q : Asked = asked_of s now step digest output policy in
        held_by-Step step q (evaluate q) h (rw (gate_check, m) at g)
  ]

  round_memoized :
      (step : Step) (c : Carry) (digest : String) (memo : Memo) (db : Db)
      → get_memoized_step sha256_hex db.step_results e.run_id step.step_id digest ≡ ok (some memo)
      → run_step sha256_hex e r (ha_gate_check_for evaluate s now) dry_run step none c digest db
        ≡ (db, got memo)
  unfolding run_step
  round_memoized step c digest memo db m = rw (run_step, m) refl

  round_held :
      (step : Step) (c : Carry) (digest : String) (h : HeldGate) (db : Db)
      → get_memoized_step sha256_hex db.step_results e.run_id step.step_id digest ≡ ok none
      → gate_check evaluate s now step c.prior_digest c.prior_output ≡ some h
      → run_step sha256_hex e r (ha_gate_check_for evaluate s now) dry_run step none c digest db
        ≡ (db, holds h.reason)
  unfolding run_step ha_gate_check_for
  round_held step c digest h db m g = rw (run_step, m, ha_gate_check_for, g) refl

  -- Let no step of the list take bound parameters. Where the scan of findHeldGate, from the results
  -- and the last output that the loop has, reports a held step, the step loop of executeRun on the
  -- same tables and store holds the run at that step and for that reason, whatever the runner does.
  pub scan-HoldsAt :
      (steps : List Step) (c : Carry) (preceding : Option String) (db : Db) (h : HeldGate)
      → All IsUnbound steps
      → scan evaluate sha256_hex s now db.step_results e.run_id dry_run steps c.prior_digest
          c.prior_output preceding
        ≡ ok (some h)
      → HoldsAt h steps c db
  unfolding scan step_loop carry_on
  scan-HoldsAt [] c preceding db h u k = cc
  scan-HoldsAt (step ∷ steps) c preceding db h u k =
      elim (Memo-cases (
        get_memoized_step sha256_hex db.step_results e.run_id step.step_id
          (step_input_digest sha256_hex e.run_id step c.prior_digest dry_run none))) [
            | inl (x, m) ↦ cc (rw (scan, m) at k)
            | inr (inl m) ↦
                elim (Option-cases (gate_check evaluate s now step c.prior_digest c.prior_output)) [
                  | inl g ↦ cc (rw (scan, m, g, with_preceding) at k)
                  | inr (h0, g) ↦
                      let same : record h0 { preceding_step_id = preceding } ≡ h =
                        cc (rw (scan, m, g, with_preceding) at k) in
                      let digest : String =
                        step_input_digest sha256_hex e.run_id step c.prior_digest dry_run none in
                      let at_gate : run_step sha256_hex e r (ha_gate_check_for evaluate s now)
                            dry_run step none c digest db
                          ≡ (db, holds h0.reason) =
                        round_held step c digest h0 db m g in
                      subst (λ x. HoldsAt x (step ∷ steps) c db) same
                        (record {
                          step = step;
                          carry = c;
                          same_step = sym (gate_check-Step step c.prior_digest c.prior_output h0 g);
                          held =
                              rw (step_loop, unbound-Meaning step c.outputs u.0, at_gate, at_gate)
                                refl;
                        })
                ]
            | inr (inr (memo, m)) ↦
                let digest : String =
                  step_input_digest sha256_hex e.run_id step c.prior_digest dry_run none in
                let memoized : run_step sha256_hex e r (ha_gate_check_for evaluate s now) dry_run
                      step none c digest db
                    ≡ (db, got memo) =
                  round_memoized step c digest memo db m in
                let rest =
                  scan-HoldsAt steps
                    (carry_on c step
                      (step_input_digest sha256_hex e.run_id step c.prior_digest dry_run none) memo)
                    (some step.step_id) db h u.1 (rw (scan, m) at k) in
                record {
                  step = rest.step;
                  carry = rest.carry;
                  same_step = rest.same_step;
                  held =
                      rw (step_loop, unbound-Meaning step c.outputs u.0, memoized, memoized)
                        rest.held;
                }
          ]
