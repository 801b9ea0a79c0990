-- ===== src/WatchScheduler/Spaced.antt =====
-- hub/watch-scheduler.mjs: what one tick does to the table of the last runs.
use ainumbers_helm.HaGate.Check.{Asked, Evaluated, ha_gate_check_for}
use ainumbers_helm.HaStore.{Store}
use ainumbers_helm.Json.{nil}
use ainumbers_helm.Prelude.{
  ℕ, ◌+◌, ◌≤◌, String, Bool, true, false, Option, some, List, [], ◌∷◌, str_eq, leb→le, ◌≡◌, ◌⊎◌,
  inl, inr, refl, sym, ◌∙◌, ap, subst, Bool-cases, Option-cases, str_eq→eq, str_eq_refl,
}
use ainumbers_helm.Prelude.Dict.{Dict, get, get-set}
use ainumbers_helm.Run.Engine.{Runner, RunResult, execute_run}
use ainumbers_helm.Run.Manifest.{Result, ok, err}
use ainumbers_helm.Run.Tables.{Db}
use ainumbers_helm.WatchScheduler.Cadence.{Interval, ms, not_a_number, cadence_interval_ms}
use ainumbers_helm.WatchScheduler.Distinct.{Call, calls, AreDistinct, calls-AreDistinct}
use ainumbers_helm.WatchScheduler.File.{Watch, Packs, has_watch, get_watch}
use ainumbers_helm.WatchScheduler.Loop.{
  WatchRun, Tables, baseline_of, after, is_watch_due, window_end, cadence_manifest, record_fired,
  fire_watch, tick_one, tick,
}

-- A firing of the watch at `now`: the new row states the end of the window, which has come.
pub record Fires (w : Watch) (now : ℕ) (old new : Option WatchRun) : Type 0 where
  pub interval : ℕ
  pub cadence : cadence_interval_ms w.unit w.interval ≡ some (ms interval)
  pub due : baseline_of old w + interval ≤ now
  pub run_id : String
  pub written :
      new
      ≡ some (record {
        last_fired_at = now;
        last_run_id = run_id;
        expected_by = baseline_of old w + interval;
      })

some-true : (b : Bool) → some b ≡ some true → b ≡ true
some-true true h = refl
some-true false h = cc

-- The table's row of `k` before and after, where only the watch `w` is looked at.
abbrev StepOf : Watch → ℕ → String → Option WatchRun → Option WatchRun → Type 0
StepOf w now k old new = (new ≡ old) ⊎ ((w.watch_id ≡ k) × Fires w now old new)

Interval-cases : (i : Interval) → (i ≡ not_a_number) ⊎ ((n : ℕ) × (i ≡ ms n))
Interval-cases not_a_number = inl refl
Interval-cases (ms n) = inr (n, refl)

due-Meaning :
    (rows : Dict WatchRun) (w : Watch) (now : ℕ)
    → is_watch_due rows w now ≡ some true
    → (n : ℕ) × (cadence_interval_ms w.unit w.interval ≡ some (ms n))
      × (baseline_of (get rows w.watch_id) w + n ≤ now)
unfolding is_watch_due after
due-Meaning rows w now h = elim (Option-cases (cadence_interval_ms w.unit w.interval)) [
  | inl e ↦ cc (rw (is_watch_due, e) at h)
  | inr (i, e) ↦ elim (Interval-cases i) [
    | inl f ↦ cc (rw (is_watch_due, e, f, after) at h)
    | inr (n, f) ↦ (
      n,
      e ∙ ap (λ x. some x) f,
      leb→le (baseline_of (get rows w.watch_id) w + n) now
          (some-true _ (rw (is_watch_due, e, f, after) at h)),
    )
  ]
]

recorded :
    (watch_id run_id : String) (now expected_by : ℕ) (rows : Dict WatchRun)
    (x : Db × Result RunResult) (k : String)
    → let new = get (record_fired watch_id run_id now expected_by rows x).0.watch_runs k in
      (new ≡ get rows k)
      ⊎ ((watch_id ≡ k)
          × (new
              ≡ some (record {
                last_fired_at = now;
                last_run_id = run_id;
                expected_by = expected_by;
              })))
unfolding record_fired
recorded watch_id run_id now expected_by rows (db, err x) k = inl refl
recorded watch_id run_id now expected_by rows (db, ok r) k = elim (Bool-cases (str_eq watch_id k)) [
  | inl e ↦ inr (str_eq→eq watch_id k e, rw (get-set, e) refl)
  | inr e ↦ inl (rw (get-set, e) refl)
]

-- The row of `k` is as it was, or the watch that the file has under `k` was due and has fired.
abbrev pub RowOf : List Watch → ℕ → String → Option WatchRun → Option WatchRun → Type 0
RowOf ws now k old new =
    (new ≡ old) ⊎ ((w : Watch) × (get_watch k ws ≡ some w) × Fires w now old new)

found-has :
    (k : String) (ws : List Watch) (x : Watch) → get_watch k ws ≡ some x → has_watch k ws ≡ true
unfolding get_watch has_watch
found-has k [] x h = cc
found-has k (w ∷ ws) x h = elim (Bool-cases (str_eq w.watch_id k)) [
  | inl e ↦ rw e refl
  | inr e ↦ rw e (found-has k ws x (rw e at h))
]

found_first :
    (w : Watch) (ws : List Watch) (k : String)
    → str_eq w.watch_id k ≡ true
    → get_watch k (w ∷ ws) ≡ some w
unfolding get_watch
found_first w ws k e = rw e refl

found_later :
    (w x : Watch) (ws : List Watch) (k : String)
    → has_watch w.watch_id ws ≡ false
    → get_watch k ws ≡ some x
    → get_watch k (w ∷ ws) ≡ some x
unfolding get_watch
found_later w x ws k d h = elim (Bool-cases (str_eq w.watch_id k)) [
  | inr e ↦ rw e h
  | inl e ↦ cc (found-has k ws x h, d, ap (λ i. has_watch i ws) (str_eq→eq w.watch_id k e))
]

later_row :
    (w : Watch) (ws : List Watch) (now : ℕ) (k : String) {old new : Option WatchRun}
    → has_watch w.watch_id ws ≡ false
    → RowOf ws now k old new
    → RowOf (w ∷ ws) now k old new
later_row w ws now k d (inl same) = inl same
later_row w ws now k d (inr (x, h, f)) = inr (x, found_later w x ws k d h, f)

module _ (sha256_hex : List ℕ → String) (p : Packs) (evaluate : Asked → Evaluated) (store : Store)
    (runner : Runner) (iso : ℕ → String) where
  fire_watch-Row :
      (run_id : String) (now n : ℕ) (w : Watch) (t : Tables) (k : String)
      → cadence_interval_ms w.unit w.interval ≡ some (ms n)
      → baseline_of (get t.watch_runs w.watch_id) w + n ≤ now
      → StepOf w now k
          (get t.watch_runs k)
          (get (fire_watch sha256_hex p evaluate store runner iso run_id now w t).0.watch_runs k)
  unfolding fire_watch window_end after
  fire_watch-Row run_id now n w t k e due = elim (Option-cases (p.get_pack w.pack_id)) [
    | inl g ↦ inl (rw (fire_watch, g) refl)
    | inr (m, g) ↦
        let until : ℕ = baseline_of (get t.watch_runs w.watch_id) w + n in
        let ended : Db × Result RunResult =
          execute_run sha256_hex (iso now) run_id (cadence_manifest m w.inputs) runner false nil
            (ha_gate_check_for evaluate store (iso now)) t.db in
        elim (recorded w.watch_id run_id now until t.watch_runs ended k) [
          | inl same ↦ inl (rw (fire_watch, g, window_end, e, after) same)
          | inr (at_k, new) ↦ inr (
            at_k,
            record {
              interval = n;
              cadence = e;
              due = subst (λ i. baseline_of (get t.watch_runs i) w + n ≤ now) at_k due;
              run_id = run_id;
              written =
                  rw (fire_watch, g, window_end, e, after)
                    (new
                      ∙ ap
                          (λ i. some (record {
                            last_fired_at = now;
                            last_run_id = run_id;
                            expected_by = baseline_of (get t.watch_runs i) w + n;
                          }))
                          at_k);
            },
          )
        ]
  ]

  tick_one-Row :
      (fresh : Watch → String) (now : ℕ) (w : Watch) (t : Tables) (k : String)
      → StepOf w now k
          (get t.watch_runs k)
          (get (tick_one sha256_hex p evaluate store runner iso fresh now w t).watch_runs k)
  unfolding tick_one
  tick_one-Row fresh now w t k = elim (Option-cases (is_watch_due t.watch_runs w now)) [
    | inl e ↦ inl (rw (tick_one, e) refl)
    | inr (due, e) ↦ elim (Bool-cases due) [
      | inr f ↦ inl (rw (tick_one, e, f) refl)
      | inl f ↦
          let m = due-Meaning t.watch_runs w now (e ∙ ap (λ x. some x) f) in
          rw (tick_one, e, f) (fire_watch-Row (fresh w) now m.0 w t k m.1 m.2)
    ]
  ]

  -- No watch of the identifier, no change to its row.
  untouched :
      (fresh : Watch → String) (now : ℕ) (ws : List Watch) (t : Tables) (k : String)
      → has_watch k ws ≡ false
      → get (tick sha256_hex p evaluate store runner iso fresh now ws t).watch_runs k
        ≡ get t.watch_runs k
  unfolding tick has_watch
  untouched fresh now [] t k h = refl
  untouched fresh now (w ∷ ws) t k h = elim (Bool-cases (str_eq w.watch_id k)) [
    | inl e ↦ cc (rw e at h)
    | inr e ↦ elim (tick_one-Row fresh now w t k) [
      | inl same ↦
          untouched fresh now ws (tick_one sha256_hex p evaluate store runner iso fresh now w t) k
            (rw e at h)
          ∙ same
      | inr (at_k, f) ↦ cc (e, ap (λ x. str_eq x k) at_k, str_eq_refl k)
    ]
  ]

  tick-Row :
      (fresh : Watch → String) (now : ℕ) (ws : List Watch) (t : Tables) (k : String)
      → AreDistinct ws
      → RowOf ws now k
          (get t.watch_runs k)
          (get (tick sha256_hex p evaluate store runner iso fresh now ws t).watch_runs k)
  unfolding tick get_watch
  tick-Row fresh now [] t k d = inl refl
  tick-Row fresh now (w ∷ ws) t k d =
      let next : Tables = tick_one sha256_hex p evaluate store runner iso fresh now w t in
      elim (tick_one-Row fresh now w t k) [
        | inr (at_k, f) ↦
            let kept =
              untouched fresh now ws next k (subst (λ x. has_watch x ws ≡ false) at_k d.0) in
            inr (
              w,
              found_first w ws k (ap (λ x. str_eq x k) at_k ∙ str_eq_refl k),
              subst (λ x. Fires w now (get t.watch_runs k) x) (sym kept) f,
            )
        | inl same ↦ later_row w ws now k d.0 (
            subst
              (λ old.
                RowOf ws now k old (
                  get (tick sha256_hex p evaluate store runner iso fresh now ws next).watch_runs k))
              same (tick-Row fresh now ws next k d.1))
      ]

  -- Whatever watches were created and revoked since the file was empty, one tick changes the row of an
  -- identifier only by a firing of the watch that the file has under it. That watch is then due: an
  -- interval has passed since its last firing or, before the first, since its creation. The new row
  -- states the instant of the tick and the end of that interval.
  pub tick_fires_due :
      (cs : List Call) (fresh : Watch → String) (now : ℕ) (t : Tables) (k : String)
      → RowOf (calls sha256_hex p cs []) now k (get t.watch_runs k) (
          get
            (tick sha256_hex p evaluate store runner iso fresh now
              (calls sha256_hex p cs [])
              t).watch_runs
            k)
  tick_fires_due cs fresh now t k =
      tick-Row fresh now (calls sha256_hex p cs []) t k (calls-AreDistinct sha256_hex p cs [] _)
