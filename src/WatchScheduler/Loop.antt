-- ===== src/WatchScheduler/Loop.antt =====
-- hub/watch-scheduler.mjs: the table of the last runs, what makes a watch due, and one tick of the
-- loop with the runs that it fires. A tick is modelled as it is when no other runs beside it.
use ainumbers_helm.HaGate.Check.{Asked, Evaluated, member_text, ha_gate_check_for}
use ainumbers_helm.HaStore.{Store}
use ainumbers_helm.Json.{Json, str, arr, obj, Items, nil, cons, Fields, end, get_field, set_field}
use ainumbers_helm.Prelude.{
  ℕ, ◌+◌, String, Bool, false, Option, none, some, List, [], ◌∷◌, map, leb, if◌then◌else◌,
}
use ainumbers_helm.Prelude.Dict.{Dict, get, set}
use ainumbers_helm.Run.Engine.{Runner, RunResult, execute_run}
use ainumbers_helm.Run.Manifest.{Item, Manifest, Error, Result, ok, err}
use ainumbers_helm.Run.Tables.{Db}
use ainumbers_helm.WatchScheduler.Cadence.{Interval, ms, not_a_number, cadence_interval_ms}
use ainumbers_helm.WatchScheduler.File.{Watch, Packs}

-- a row of `watch_runs`
pub record WatchRun : Type 0 where
  pub last_fired_at : ℕ
  pub last_run_id : String
  pub expected_by : ℕ

pub record Tables : Type 0 where
  pub db : Db
  pub watch_runs : Dict WatchRun

-- watchBaseline of the row of the watch
unfoldable pub baseline_of : Option WatchRun → Watch → ℕ
baseline_of none w = w.created_at
baseline_of (some row) w = row.last_fired_at

-- the instant one interval after, none where it is NaN
unfoldable pub after : ℕ → Interval → Option ℕ
after t (ms n) = some (t + n)
after t not_a_number = none

reached : ℕ → Option ℕ → Bool
reached now none = false
reached now (some t) = leb t now

-- isWatchDue; none where it throws
unfoldable pub is_watch_due : Dict WatchRun → Watch → ℕ → Option Bool
unfolding after baseline_of reached
is_watch_due rows w now =
    let baseline = baseline_of (get rows w.watch_id) w in
    elim (cadence_interval_ms w.unit w.interval) [
      | none ↦ none
      | some i ↦ some (reached now (after baseline i))
    ]

-- the end of the window that a firing satisfies, none where the code throws
unfoldable pub window_end : Dict WatchRun → Watch → Option ℕ
unfolding after baseline_of
window_end rows w =
    let baseline = baseline_of (get rows w.watch_id) w in
    elim (cadence_interval_ms w.unit w.interval) [ none ↦ none | some i ↦ after baseline i ]

abbrev fields_of : Option Json → Fields
fields_of (some (obj fs)) = fs
fields_of _ = end

supply : Fields → Item → Item
unfolding member_text
supply inputs item = elim (member_text (some item.json) "node_id") [
  | none ↦ item
  | some node_id ↦ elim (get_field inputs node_id) [
    | none ↦ item
    | some params ↦ record item {
      policy_parameters = fields_of (some params);
      json = obj (set_field (fields_of (some item.json)) "policy_parameters" params);
    }
  ]
]

item_list : List Item → Items
item_list [] = nil
item_list (i ∷ is) = cons i.json (item_list is)

-- The manifest that is run: the trigger's type is "cadence", and the nodes take the watch's inputs.
unfoldable pub cadence_manifest : Manifest → Option Fields → Manifest
unfolding supply item_list
cadence_manifest m inputs =
    let fs = fields_of (some m.json) in
    let trigger = set_field (fields_of (get_field fs "trigger")) "type" (str "cadence") in
    let triggered = set_field fs "trigger" (obj trigger) in
    elim inputs [
      | none ↦ record m { json = obj triggered }
      | some given ↦
          let nodes = map (supply given) m.nodes in
          record m {
            nodes = nodes;
            json = obj (set_field triggered "nodes" (arr (item_list nodes)));
          }
    ]

pub data Fired : Type 0 where
  fired : String → RunResult → Fired
  pack_gone no_window : Fired
  run_failed : Error → Fired

-- recordFired, reached only where executeRun returns
unfoldable pub record_fired :
    String → String → ℕ → ℕ → Dict WatchRun → Db × Result RunResult → Tables × Fired
record_fired watch_id run_id now expected_by rows (db, err x) =
    (record { db = db; watch_runs = rows }, run_failed x)
record_fired watch_id run_id now expected_by rows (db, ok result) = (
  record {
    db = db;
    watch_runs =
        set rows watch_id
          (record { last_fired_at = now; last_run_id = run_id; expected_by = expected_by });
  },
  fired run_id result,
)

module _ (sha256_hex : List ℕ → String) (p : Packs) (evaluate : Asked → Evaluated) (store : Store)
    (runner : Runner) (iso : ℕ → String) where
  -- fireWatch; `run_id` stands for randomUUID().
  unfoldable pub fire_watch : String → ℕ → Watch → Tables → Tables × Fired
  unfolding record_fired window_end
  fire_watch run_id now w t = elim (p.get_pack w.pack_id) [
    | none ↦ (t, pack_gone)
    | some m ↦ elim (window_end t.watch_runs w) [
      | none ↦ (t, no_window)
      | some expected_by ↦ record_fired w.watch_id run_id now expected_by t.watch_runs (
          execute_run sha256_hex (iso now) run_id (cadence_manifest m w.inputs) runner false nil
            (ha_gate_check_for evaluate store (iso now)) t.db)
    ]
  ]

  -- One watch of a tick: what throws is logged.
  unfoldable pub tick_one : (Watch → String) → ℕ → Watch → Tables → Tables
  unfolding is_watch_due fire_watch
  tick_one fresh now w t =
      let next = (fire_watch (fresh w) now w t).0 in
      elim (is_watch_due t.watch_runs w now) [ none ↦ t | some due ↦ if due then next else t ]

  -- The tick over the watches that the file holds when it starts.
  unfoldable pub tick : (Watch → String) → ℕ → List Watch → Tables → Tables
  unfolding tick_one
  tick fresh now [] t = t
  tick fresh now (w ∷ ws) t = tick fresh now ws (tick_one fresh now w t)
