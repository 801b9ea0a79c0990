-- ===== src/Run/Engine/Moves.antt =====
-- How `transitionState` of hub/run.mjs leaves the tables, whether it returns or throws.
use ainumbers_helm.Journal.{Journal, Appended, Outcome, done, thrown}
use ainumbers_helm.Prelude.{ℕ, String, ◌≡◌, refl, Option, List, ◌==◌, ◌⊎◌, inl, inr, Bool-cases}
use ainumbers_helm.Run.Manifest.{Error, Result, ok, err}
use ainumbers_helm.Run.Tables.{
  State, Db, Env, is_allowed, transition_state, finish_transition, update_state, next_journal_seq,
}

-- It returned, and the row has the new state.
pub record Moved (e : Env) (to : State) (db : Db) (res : Db × Result (Unit {0})) : Type 0 where
  pub after : Db
  pub made : res ≡ (after, ok tt)
  pub runs_moved : after.runs ≡ update_state db.runs e.run_id to
  pub results_kept : after.step_results ≡ db.step_results

-- It threw, and no row changed; the journal may have an entry more.
pub record Refused (db : Db) (res : Db × Result (Unit {0})) : Type 0 where
  pub after : Db
  pub error : Error
  pub made : res ≡ (after, err error)
  pub runs_kept : after.runs ≡ db.runs
  pub results_kept : after.step_results ≡ db.step_results

module _ (sha256_hex : List ℕ → String) where
  finish-cases :
      (e : Env) (to : State) (out : Outcome (Journal × Appended)) (db : Db)
      → Moved e to db (finish_transition sha256_hex e to out db)
        ⊎ Refused db (finish_transition sha256_hex e to out db)
  unfolding finish_transition
  finish-cases e to (thrown x) db =
      inr (record { after = _; error = _; made = refl; runs_kept = refl; results_kept = refl })
  finish-cases e to (done (j, a)) db = elim (Bool-cases (a.seq == next_journal_seq db.journal)) [
    | inl same ↦ rw same (
        inl (record {
          after = record db { journal = j; runs = update_state db.runs e.run_id to };
          made = refl;
          runs_moved = refl;
          results_kept = refl;
        }))
    | inr other ↦ rw other (
        inr (record {
          after = record db { journal = j };
          error = _;
          made = refl;
          runs_kept = refl;
          results_kept = refl;
        }))
  ]

  pub transition-cases :
      (e : Env) (from : Option State) (to : State) (db : Db)
      → Moved e to db (transition_state sha256_hex e from to db)
        ⊎ Refused db (transition_state sha256_hex e from to db)
  unfolding transition_state
  transition-cases e from to db = elim (Bool-cases (is_allowed from to)) [
    | inl allowed ↦ rw allowed (finish-cases e to _ db)
    | inr barred ↦
        rw barred (
          inr
            (record { after = db; error = _; made = refl; runs_kept = refl; results_kept = refl }))
  ]
