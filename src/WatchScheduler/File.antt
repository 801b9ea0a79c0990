-- ===== src/WatchScheduler/File.antt =====
-- hub/watch-scheduler.mjs: watches.json and the two operations that write it.
use ainumbers_helm.HaGate.Check.{member_text, member_json}
use ainumbers_helm.Json.{Json, num, arr, obj, Items, nil, cons, Fields, end, field}
use ainumbers_helm.Prelude.{
  ℕ, String, Bool, false, Option, none, some, List, [], ◌∷◌, ◌++◌, str_eq, if◌then◌else◌, find, any,
}
use ainumbers_helm.Run.Manifest.{Item, Manifest}
use ainumbers_helm.Run.Tables.{sha256_ref}
use ainumbers_helm.WatchScheduler.Cadence.{WatchError, validate_watch_input}

pub record Evidence : Type 0 where
  pub framework : String
  pub control_id : String

-- `inputs` is there in the mode "operator_supplied" only.
pub record Watch : Type 0 where
  pub watch_id : String
  pub pack_id : String
  pub pack_digest : String
  pub unit : String
  pub interval : ℕ
  pub inputs : Option Fields
  pub alert_on : Option Json
  pub evidences : Option (List Evidence)
  pub created_at : ℕ
  pub created_by : String
  pub consent_ref : String

pub data Refusal : Type 0 where
  invalid_watch : List WatchError → Refusal
  workflow_not_found pack_digest_mismatch inputs_required watch_id_exists : Refusal
  unknown_node : String → Refusal
  bad_inputs : String → String → Refusal

pub data Outcome : Type 0 where
  created : Watch → Outcome
  refused : Refusal → Outcome

text_of : Option String → String
text_of none = ""
text_of (some s) = s

count_of : Option Json → ℕ
count_of (some (num n)) = n
count_of _ = 0

evidence_list : Items → List Evidence
unfolding text_of
evidence_list nil = []
evidence_list (cons e rest) =
    record {
      framework = text_of (member_text (some e) "framework");
      control_id = text_of (member_text (some e) "control_id");
    }
    ∷ evidence_list rest

evidences_of : Option Json → Option (List Evidence)
unfolding evidence_list
evidences_of (some (arr es)) = some (evidence_list es)
evidences_of _ = none

-- The watch of a request that is valid; `fresh_id` stands for randomUUID().
unfoldable pub watch_of : String → ℕ → Json → Option Fields → Watch
unfolding text_of count_of evidences_of member_text member_json
watch_of fresh_id now input inputs =
    let pack = member_json (some input) "pack_ref" in
    let cadence = member_json (some input) "cadence" in
    record {
      watch_id = elim (member_text (some input) "watch_id") [ none ↦ fresh_id | some id ↦ id ];
      pack_id = text_of (member_text pack "pack_id");
      pack_digest = text_of (member_text pack "pack_digest");
      unit = text_of (member_text cadence "unit");
      interval = count_of (member_json cadence "interval");
      inputs = inputs;
      alert_on = member_json (some input) "alert_on";
      evidences = evidences_of (member_json (some input) "evidences");
      created_at = now;
      created_by = text_of (member_text (member_json (some input) "created_by") "id");
      consent_ref = text_of (member_text (some input) "consent_ref");
    }

unfoldable pub has_watch : String → List Watch → Bool
has_watch id watches = any (λ (w : Watch). str_eq w.watch_id id) watches

-- listWatches, the check of the identifier and the push
unfoldable pub add_watch : Watch → List Watch → List Watch × Outcome
unfolding has_watch
add_watch w watches =
    if has_watch w.watch_id watches
    then (watches, refused watch_id_exists)
    else (watches ++ w ∷ [], created w)

is_node : String → Item → Bool
is_node node_id item = elim (member_text (some item.json) "node_id") [
  | none ↦ false
  | some id ↦ str_eq id node_id
]

-- `get_pack` reads a pack's manifest from disk, `validate_kernel_inputs` gives the error of a node's
-- inputs.
pub record Packs : Type 0 where
  pub get_pack : String → Option Manifest
  pub validate_kernel_inputs : Option String → Json → Option String

module _ (sha256_hex : List ℕ → String) (p : Packs) where
  unfoldable pub check_inputs : Manifest → Fields → Option Refusal
  unfolding is_node member_text
  check_inputs m end = none
  check_inputs m (field node_id params rest) =
      let next = check_inputs m rest in
      elim (find (is_node node_id) m.nodes) [
        | none ↦ some (unknown_node node_id)
        | some node ↦
            elim (p.validate_kernel_inputs (member_text (some node.json) "kernel_id") params) [
              | some why ↦ some (bad_inputs node_id why)
              | none ↦ next
            ]
      ]

  unfoldable pub with_inputs :
      String → ℕ → Json → Manifest → Option Json → List Watch → List Watch × Outcome
  unfolding check_inputs
  with_inputs fresh_id now input m (some (obj inputs)) watches = elim (check_inputs m inputs) [
    | some why ↦ (watches, refused why)
    | none ↦ add_watch (watch_of fresh_id now input (some inputs)) watches
  ]
  with_inputs fresh_id now input m _ watches = (watches, refused inputs_required)

  unfoldable pub of_mode :
      String → ℕ → Json → Manifest → Option Json → Option String → List Watch → List Watch × Outcome
  unfolding with_inputs member_json
  of_mode fresh_id now input m source none watches =
      add_watch (watch_of fresh_id now input none) watches
  of_mode fresh_id now input m source (some mode) watches =
      if str_eq mode "operator_supplied"
      then with_inputs fresh_id now input m (member_json source "inputs") watches
      else add_watch (watch_of fresh_id now input none) watches

  unfoldable pub of_pack :
      String → ℕ → Json → String → Option Manifest → List Watch → List Watch × Outcome
  unfolding of_mode
  of_pack fresh_id now input digest none watches = (watches, refused workflow_not_found)
  of_pack fresh_id now input digest (some m) watches =
      let source = member_json (some input) "inputs_source" in
      if str_eq (sha256_ref sha256_hex m.json) digest
      then of_mode fresh_id now input m source (member_text source "mode") watches
      else (watches, refused pack_digest_mismatch)

  -- createWatch
  unfoldable pub create_watch : String → ℕ → Json → List Watch → List Watch × Outcome
  unfolding of_pack text_of
  create_watch fresh_id now input watches =
      let pack = member_json (some input) "pack_ref" in
      elim (validate_watch_input input) [
        | e ∷ es ↦ (watches, refused (invalid_watch (e ∷ es)))
        | [] ↦
            of_pack fresh_id now input (text_of (member_text pack "pack_digest"))
              (p.get_pack (text_of (member_text pack "pack_id"))) watches
      ]

-- getWatch
unfoldable pub get_watch : String → List Watch → Option Watch
get_watch id watches = find (λ (w : Watch). str_eq w.watch_id id) watches

pub record Revoked : Type 0 where
  pub watch : Watch
  pub watch_revoked_at : ℕ
  pub revoked_by : Option String

-- watches.splice(idx, 1) at the first of the identifier
unfoldable pub remove_first : String → List Watch → List Watch
remove_first id [] = []
remove_first id (w ∷ ws) =
    let rest = remove_first id ws in if str_eq w.watch_id id then ws else w ∷ rest

-- revokeWatch
unfoldable pub revoke_watch : String → Option String → ℕ → List Watch → List Watch × Option Revoked
unfolding remove_first get_watch
revoke_watch id revoked_by now watches = elim (get_watch id watches) [
  | none ↦ (watches, none)
  | some w ↦ (
    remove_first id watches,
    some (record { watch = w; watch_revoked_at = now; revoked_by = revoked_by }),
  )
]
