-- ===== src/Run/Engine/Rounds.antt =====
-- The memo of hub/run.mjs: what a step leaves in `step_results` is what a later read finds.
use ainumbers_helm.Json.{Json, Fields}
use ainumbers_helm.Journal.{Journal}
use ainumbers_helm.Prelude.{
  ℕ, String, ◌≡◌, refl, sym, ◌∙◌, Bool, true, false, Option, none, some, List, [], ◌∷◌, ◌++◌,
  str_eq_refl, if◌then◌else◌, keep, Bool-cases, Option-cases, arith, inl, inr,
}
use ainumbers_helm.Run.Manifest.{Step, Error, Result, ok, err, no_runner}
use ainumbers_helm.Run.Tables.{
  Db, Env, Memo, StepResult, same_key, select_result, get_memoized_step, save_step_result, checked,
  sha256_ref,
}
use ainumbers_helm.Run.Engine.{
  Runner, Gate, Carry, StepEnd, got, throws, run_step, unless_memoized, gated, produce,
  after_runner, save_output, lacks_runner, dry_output,
}

-- Every row that is found in the one table is found in the other.
pub record Preserves (t u : List StepResult) : Type 0 where
  pub at :
      (run_id step_id digest : String) (x : StepResult)
      → select_result t run_id step_id digest ≡ some x
      → select_result u run_id step_id digest ≡ some x

pub Preserves-refl : (t : List StepResult) → Preserves t t
Preserves-refl t = record { at = λ a b c x h. h }

pub Preserves-trans : {t u v : List StepResult} → Preserves t u → Preserves u v → Preserves t v
Preserves-trans p q = record { at = λ a b c x h. q.at a b c x (p.at a b c x h) }

keep_others :
    (t : List StepResult) (a b c : String)
    → select_result t a b c ≡ none
    → keep (λ r. if same_key a b c r then false else true) t ≡ t
unfolding select_result
keep_others [] a b c h = refl
keep_others (r ∷ rs) a b c h = elim (Bool-cases (same_key a b c r)) [
  | inl same ↦ cc (rw same at h)
  | inr other ↦ rw (other, keep_others rs a b c (rw other at h))
]

select-append :
    (t : List StepResult) (r x : StepResult) (a b c : String)
    → select_result t a b c ≡ some x
    → select_result (t ++ r ∷ []) a b c ≡ some x
unfolding select_result
select-append [] r x a b c h = cc
select-append (y ∷ ys) r x a b c h = elim (Bool-cases (same_key a b c y)) [
  | inl same ↦ rw same (rw same at h)
  | inr other ↦ rw other (select-append ys r x a b c (rw other at h))
]

select-added :
    (t : List StepResult) (r : StepResult) (a b c : String)
    → select_result t a b c ≡ none
    → same_key a b c r ≡ true
    → select_result (t ++ r ∷ []) a b c ≡ some r
unfolding select_result
select-added [] r a b c h k = rw k
select-added (y ∷ ys) r a b c h k = elim (Bool-cases (same_key a b c y)) [
  | inl same ↦ cc (rw same at h)
  | inr other ↦ rw other (select-added ys r a b c (rw other at h) k)
]

module _ (sha256_hex : List ℕ → String) where
  -- What a round of the loop does to the tables.
  pub record StepKept (e : Env) (s : Step) (digest : String) (db : Db) (res : Db × StepEnd)
      : Type 0 where
    pub preserved : Preserves db.step_results res.0.step_results
    pub runs_kept : res.0.runs ≡ db.runs
    pub recalled :
        (memo : Memo)
        → res.1 ≡ got memo
        → get_memoized_step sha256_hex res.0.step_results e.run_id s.step_id digest ≡ ok (some memo)

  read_found :
      (t : List StepResult) (a b c : String) (x : StepResult)
      → select_result t a b c ≡ some x
      → get_memoized_step sha256_hex t a b c ≡ checked sha256_hex x
  unfolding get_memoized_step
  read_found t a b c x h = rw (get_memoized_step, h) refl

  save_output-StepKept :
      (e : Env) (s : Step) (digest : String) (output : Json) (db : Db)
      → select_result db.step_results e.run_id s.step_id digest ≡ none
      → StepKept e s digest db (save_output sha256_hex e s digest output db)
  unfolding save_output save_step_result checked
  save_output-StepKept e s digest output db absent = record {
    preserved = record {
      at = λ a b c x h.
          rw (keep_others db.step_results e.run_id s.step_id digest absent)
            (select-append db.step_results _ x a b c h);
    };
    runs_kept = refl;
    recalled = λ memo h. rw (keep_others db.step_results e.run_id s.step_id digest absent) (
        read_found _ e.run_id s.step_id digest _ (
          select-added db.step_results _ e.run_id s.step_id digest absent
            (rw (str_eq_refl e.run_id, str_eq_refl s.step_id, str_eq_refl digest) refl))
        ∙ rw (checked, str_eq_refl (sha256_ref sha256_hex output)) (cc));
  }

  unchanged-StepKept :
      (e : Env) (s : Step) (digest : String) (db : Db) (x : Error)
      → StepKept e s digest db (db, throws x)
  unchanged-StepKept e s digest db x = record {
    preserved = Preserves-refl db.step_results;
    runs_kept = refl;
    recalled = λ memo h. cc;
  }

  after_runner-StepKept :
      (e : Env) (s : Step) (digest : String) (ran : Journal × Result Json) (db : Db)
      → select_result db.step_results e.run_id s.step_id digest ≡ none
      → StepKept e s digest db (after_runner sha256_hex e s digest ran db)
  unfolding after_runner
  after_runner-StepKept e s digest (j, ok output) db absent =
      let k = save_output-StepKept e s digest output (record db { journal = j }) absent in
      record { preserved = k.preserved; runs_kept = k.runs_kept; recalled = k.recalled }
  after_runner-StepKept e s digest (j, err x) db absent = record {
    preserved = Preserves-refl db.step_results;
    runs_kept = refl;
    recalled = λ memo h. cc;
  }

  produce-StepKept :
      (e : Env) (r : Runner) (dry_run : Bool) (s : Step) (p : Option Fields) (c : Carry)
      → (digest : String) (db : Db) → select_result db.step_results e.run_id s.step_id digest ≡ none
      → StepKept e s digest db (produce sha256_hex e r dry_run s p c digest db)
  unfolding produce
  produce-StepKept e r true s p c digest db absent =
      elim (Bool-cases (lacks_runner r.can_dispatch s)) [
        | inl lacks ↦ rw lacks (unchanged-StepKept e s digest db (no_runner s.step_id))
        | inr has ↦ rw has (save_output-StepKept e s digest (dry_output s) db absent)
      ]
  produce-StepKept e r false s p c digest db absent =
      after_runner-StepKept e s digest (r.run_step s p c.prior_digest db.journal) db absent

  gated-StepKept :
      (e : Env) (r : Runner) (dry_run : Bool) (s : Step) (p : Option Fields) (c : Carry)
      → (digest : String) (asked : Result (Option String)) (db : Db)
      → select_result db.step_results e.run_id s.step_id digest ≡ none
      → StepKept e s digest db (gated sha256_hex e r dry_run s p c digest asked db)
  unfolding gated
  gated-StepKept e r dry_run s p c digest (err x) db absent = unchanged-StepKept e s digest db x
  gated-StepKept e r dry_run s p c digest (ok (some reason)) db absent = record {
    preserved = Preserves-refl db.step_results;
    runs_kept = refl;
    recalled = λ memo h. cc;
  }
  gated-StepKept e r dry_run s p c digest (ok none) db absent =
      produce-StepKept e r dry_run s p c digest db absent

  -- A read that finds nothing means that there is no such row.
  unread :
      (t : List StepResult) (a b c : String)
      → get_memoized_step sha256_hex t a b c ≡ ok none
      → select_result t a b c ≡ none
  unfolding get_memoized_step checked
  unread t a b c h = ground arith

  unless_memoized-StepKept :
      (e : Env) (r : Runner) (g : Gate) (dry_run : Bool) (s : Step) (p : Option Fields) (c : Carry)
      → (digest : String) (m : Result (Option Memo)) (db : Db)
      → get_memoized_step sha256_hex db.step_results e.run_id s.step_id digest ≡ m
      → StepKept e s digest db (unless_memoized sha256_hex e r g dry_run s p c digest m db)
  unfolding unless_memoized
  unless_memoized-StepKept e r g dry_run s p c digest (err x) db h =
      unchanged-StepKept e s digest db x
  unless_memoized-StepKept e r g dry_run s p c digest (ok (some memo)) db h = record {
    preserved = Preserves-refl db.step_results;
    runs_kept = refl;
    recalled = λ m same. h ∙ cc;
  }
  unless_memoized-StepKept e r g dry_run s p c digest (ok none) db h =
      gated-StepKept e r dry_run s p c digest _ db
        (unread db.step_results e.run_id s.step_id digest h)

  -- One round of the loop never loses a row, and what it ends with is what a later read finds.
  pub run_step-StepKept :
      (e : Env) (r : Runner) (g : Gate) (dry_run : Bool) (s : Step) (p : Option Fields) (c : Carry)
      → (digest : String) (db : Db)
      → StepKept e s digest db (run_step sha256_hex e r g dry_run s p c digest db)
  unfolding run_step
  run_step-StepKept e r g dry_run s p c digest db =
      unless_memoized-StepKept e r g dry_run s p c digest _ db refl

  -- A read that found a row finds it in every table that preserves the first.
  pub memo-Preserves :
      (t u : List StepResult) (a b c : String) (memo : Memo)
      → Preserves t u
      → get_memoized_step sha256_hex t a b c ≡ ok (some memo)
      → get_memoized_step sha256_hex u a b c ≡ ok (some memo)
  unfolding get_memoized_step
  memo-Preserves t u a b c memo p h = elim (Option-cases (select_result t a b c)) [
    | inl absent ↦ cc (rw (get_memoized_step, absent) at h)
    | inr (x, found) ↦
        read_found u a b c x (p.at a b c x found) ∙ (sym (read_found t a b c x found) ∙ h)
  ]
