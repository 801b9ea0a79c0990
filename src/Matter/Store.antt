-- ===== src/Matter/Store.antt =====
-- hub/matter-store.mjs: the tables, the resolution of bindings, and the operations on matters. The
-- schema's validator is the parameter `validate`, which gives the errors that it finds.
use ainumbers_helm.HaStore.{Stored}
use ainumbers_helm.Json.{Json, bool, str, arr, obj, Items, nil, cons, Fields, end, field, get_field}
use ainumbers_helm.Journal.{record_digest}
use ainumbers_helm.Prelude.{
  ℕ, suc, ◌+◌, String, ◌<>◌, Bool, true, false, ◌&&◌, Option, none, some, List, [], ◌∷◌, ◌++◌, map,
  leb, ◌==◌, str_eq, if◌then◌else◌, find, any,
}
use ainumbers_helm.Prelude.Bytes.{codes}
use ainumbers_helm.Prelude.Dict.{Dict, get, set, delete}
use ainumbers_helm.Run.Tables.{Run, StepResult}

pub record Deadline : Type 0 where
  pub date : String
  pub action : String
  pub kind : String
  pub source : String
  pub done : Bool
  pub done_at : Option String

pub record Binding : Type 0 where
  pub subject_hash : String
  pub subject_kind : String
  pub note : Option String

-- A matter before its digest is taken.
pub record Draft : Type 0 where
  pub matter_id : String
  pub status : String
  pub entity : Json
  pub parties : List Json
  pub deadlines : List Deadline
  pub bindings : List Binding
  pub narrative : Option Json
  pub created_at : String
  pub updated_at : String

pub record Matter : Type 0 where
  pub draft : Draft
  pub manifest_digest : String

-- a row of `matters`; the columns repeat members of the manifest
pub record MatterRow : Type 0 where
  pub status : String
  pub manifest : Matter
  pub manifest_digest : String
  pub created_at : String
  pub updated_at : String

-- a row of `evidence_bundle_registry`
pub record Registered : Type 0 where
  pub run_id : Option String
  pub registered_at : String

-- The tables that this module reads, and those that it owns.
pub record Tables : Type 0 where
  pub runs : Dict Run
  pub step_results : List StepResult
  pub ha_records : List Stored
  pub matters : Dict MatterRow
  pub registry : Dict Registered

pub data BindingError : Type 0 where
  unknown_kind : ℕ → String → BindingError
  unresolved : ℕ → String → String → BindingError

pub data Refusal : Type 0 where
  bad_shape : List String → Refusal
  bad_bindings : List BindingError → Refusal
  unknown_matter : String → Refusal
  done_deadline_lost : String → String → Refusal
  id_taken : String → Refusal

pub data Outcome {ℓ} (A : Type ℓ) : Type ℓ where
  done : A → Outcome A
  refused : Refusal → Outcome A

-- INSERT OR IGNORE
unfoldable pub register_evidence_bundle : String → String → Option String → Tables → Tables
register_evidence_bundle now manifest_digest run_id t = elim (get t.registry manifest_digest) [
  | some r ↦ t
  | none ↦ record t {
    registry = set t.registry manifest_digest (record { run_id = run_id; registered_at = now });
  }
]

unfoldable pub has_hash : String → Option String → Bool
has_hash hash none = false
has_hash hash (some h) = str_eq h hash

-- SELECT ... FROM runs WHERE execution_hash = ?, the first row
unfoldable pub run_with_hash : String → Dict Run → Option (String × Run)
unfolding has_hash
run_with_hash hash [] = none
run_with_hash hash ((run_id, r) ∷ rs) =
    let rest = run_with_hash hash rs in
    if has_hash hash r.execution_hash then some (run_id, r) else rest

unfoldable pub is_some {ℓ} : {A : Type ℓ} → Option A → Bool
is_some none = false
is_some (some a) = true

-- getRecordById of hub/ha-store.mjs
unfoldable pub get_record_by_id : String → List Stored → Option Stored
get_record_by_id record_id records = find (λ (r : Stored). str_eq r.record_id record_id) records

fold_case : ℕ → ℕ
fold_case c = if leb b'A' c && leb c b'Z' then c + 32 else c

-- text LIKE 'attested_artifacts:%', in which case does not count and `_` is any character
is_like : List ℕ → List ℕ → Bool
unfolding fold_case
is_like [] cs = true
is_like (p ∷ ps) [] = false
is_like (p ∷ ps) (c ∷ cs) =
    let rest = is_like ps cs in
    if p == b'_' then rest else if fold_case p == fold_case c then rest else false

-- o?.[k]
unfoldable pub member_of : Option Json → String → Option Json
member_of (some (obj fs)) k = get_field fs k
member_of _ k = none

-- A hash that is a text, and not the empty one.
unfoldable pub hash_text : Option Json → Option String
hash_text (some (str s)) = if str_eq s "" then none else some s
hash_text _ = none

artifact_hash : Json → Option String
unfolding member_of hash_text
artifact_hash output = hash_text (member_of (member_of (some output) "artifact") "execution_hash")

is_attested : String → StepResult → Bool
unfolding is_like artifact_hash
is_attested subject_hash r =
    if is_like (codes "attested_artifacts:") (codes r.step_id)
    then elim (artifact_hash r.output) [
      | none ↦ false
      | some hex ↦ str_eq ("sha256:" <> hex) subject_hash
    ]
    else false

unfoldable pub find_attested_artifact : String → List StepResult → Option StepResult
unfolding is_attested
find_attested_artifact subject_hash rows = find (is_attested subject_hash) rows

-- RESOLVERS; none where there is no such kind.
unfoldable pub resolves : Tables → String → String → Option Bool
unfolding is_some
resolves t kind hash =
    if str_eq kind "run"
    then some (is_some (run_with_hash hash t.runs))
    else if str_eq kind "approval_record"
    then some (is_some (get_record_by_id hash t.ha_records))
    else if str_eq kind "evidence_bundle"
    then some (is_some (get t.registry hash))
    else if str_eq kind "attested_artifact"
    then some (is_some (find_attested_artifact hash t.step_results))
    else none

unfoldable pub binding_errors : Tables → ℕ → Binding → List BindingError
binding_errors t i b = elim (resolves t b.subject_kind b.subject_hash) [
  | none ↦ unknown_kind i b.subject_kind ∷ []
  | some true ↦ []
  | some false ↦ unresolved i b.subject_hash b.subject_kind ∷ []
]

unfoldable pub unresolved_from : Tables → ℕ → List Binding → List BindingError
unresolved_from t i [] = []
unresolved_from t i (b ∷ bs) =
    let rest = unresolved_from t (suc i) bs in
    if str_eq b.subject_kind "external_reference" then rest else binding_errors t i b ++ rest

unfoldable pub unresolved_bindings : Tables → List Binding → List BindingError
unfolding unresolved_from
unresolved_bindings t bs = unresolved_from t 0 bs

-- The caller's members; `none` is one that is absent or null.
pub record Input : Type 0 where
  pub status : Option String
  pub entity : Json
  pub parties : Option (List Json)
  pub deadlines : Option (List Deadline)
  pub bindings : Option (List Binding)
  pub narrative : Option Json

-- `narrative` tells whether the member is there and, if it is, its value or undefined.
pub record Patch : Type 0 where
  pub status : Option String
  pub entity : Option Json
  pub parties : Option (List Json)
  pub deadlines : Option (List Deadline)
  pub bindings : Option (List Binding)
  pub narrative : Option (Option Json)

-- a ?? b
abbrev pub or_else {ℓ} : {A : Type ℓ} → Option A → A → A
or_else none b = b
or_else (some a) b = a

text_items : List Json → Items
text_items [] = nil
text_items (v ∷ vs) = cons v (text_items vs)

done_at_field : Option String → Fields
done_at_field none = end
done_at_field (some t) = field "done_at" (str t) end

deadline_json : Deadline → Json
unfolding done_at_field
deadline_json d = obj (
    field "date" (str d.date) (
      field "action" (str d.action) (
        field "type" (str d.kind)
          (field "source" (str d.source) (field "done" (bool d.done) (done_at_field d.done_at))))))

note_field : Option String → Fields
note_field none = end
note_field (some n) = field "note" (str n) end

binding_json : Binding → Json
unfolding note_field
binding_json b = obj (
    field "subject_hash" (str b.subject_hash)
      (field "subject_kind" (str b.subject_kind) (note_field b.note)))

narrative_field : Option Json → Fields → Fields
narrative_field none rest = rest
narrative_field (some n) rest = field "narrative" n rest

unfoldable pub draft_fields : Draft → Fields
unfolding text_items deadline_json binding_json narrative_field
draft_fields d = field "matter_id" (str d.matter_id) (
    field "status" (str d.status) (
      field "entity" d.entity (
        field "parties" (arr (text_items d.parties)) (
          field "deadlines" (arr (text_items (map deadline_json d.deadlines))) (
            field "bindings" (arr (text_items (map binding_json d.bindings))) (
              narrative_field d.narrative (
                field "created_at" (str d.created_at)
                  (field "updated_at" (str d.updated_at) end))))))))

-- The natural key of a deadline that the update must still have, done.
unfoldable pub is_still_done : Deadline → Deadline → Bool
is_still_done prior d =
    (str_eq d.date prior.date && str_eq d.action prior.action)
    && (str_eq d.source prior.source && d.done)

-- The first done deadline of `priors` that `next` does not have.
unfoldable pub lost_deadline : List Deadline → List Deadline → Option Deadline
unfolding is_still_done
lost_deadline [] next = none
lost_deadline (p ∷ ps) next =
    let rest = lost_deadline ps next in
    if p.done then (if any (is_still_done p) next then rest else some p) else rest

unfoldable pub row_of : Matter → MatterRow
row_of m = record {
  status = m.draft.status;
  manifest = m;
  manifest_digest = m.manifest_digest;
  created_at = m.draft.created_at;
  updated_at = m.draft.updated_at;
}

next_narrative : Option (Option Json) → Option Json → Option Json
next_narrative none existing = existing
next_narrative (some patched) existing = patched

unfoldable pub create_draft : String → String → Input → Draft
create_draft now matter_id q = record {
  matter_id = matter_id;
  status = or_else q.status "intake";
  entity = q.entity;
  parties = or_else q.parties [];
  deadlines = or_else q.deadlines [];
  bindings = or_else q.bindings [];
  narrative = q.narrative;
  created_at = now;
  updated_at = now;
}

unfoldable pub merge_draft : String → Draft → Patch → Draft
unfolding next_narrative
merge_draft now existing patch = record {
  matter_id = existing.matter_id;
  status = or_else patch.status existing.status;
  entity = or_else patch.entity existing.entity;
  parties = or_else patch.parties existing.parties;
  deadlines = or_else patch.deadlines existing.deadlines;
  bindings = or_else patch.bindings existing.bindings;
  narrative = next_narrative patch.narrative existing.narrative;
  created_at = existing.created_at;
  updated_at = now;
}

module _ (sha256_hex : List ℕ → String) (validate : Matter → List String) where
  unfoldable pub compute_manifest_digest : Draft → String
  compute_manifest_digest d = "sha256:" <> record_digest sha256_hex (obj (draft_fields d))

  unfoldable pub seal : Draft → Matter
  seal d = record { draft = d; manifest_digest = compute_manifest_digest d }

  -- The checks of createMatter and updateMatter, then what they do with the manifest.
  unfoldable pub checked {ℓ} : {A : Type ℓ} → Tables → Matter → Outcome A → Outcome A
  checked t m next = elim (validate m) [
    | e ∷ es ↦ refused (bad_shape (e ∷ es))
    | [] ↦ elim (unresolved_bindings t m.draft.bindings) [
      | e ∷ es ↦ refused (bad_bindings (e ∷ es))
      | [] ↦ next
    ]
  ]

  unfoldable pub insert_matter : Matter → Tables → Outcome (Tables × Matter)
  insert_matter m t = elim (get t.matters m.draft.matter_id) [
    | some r ↦ refused (id_taken m.draft.matter_id)
    | none ↦ done (record t { matters = set t.matters m.draft.matter_id (row_of m) }, m)
  ]

  unfoldable pub create_matter : String → String → Input → Tables → Outcome (Tables × Matter)
  create_matter now ulid q t =
      let m = seal (create_draft now ulid q) in checked t m (insert_matter m t)

  unfoldable pub get_matter : Tables → String → Option Matter
  get_matter t matter_id = elim (get t.matters matter_id) [ none ↦ none | some r ↦ some r.manifest ]

  -- The row of the matter keeps its created_at column.
  unfoldable pub write_update : String → Matter → Tables → Tables
  write_update matter_id m t = elim (get t.matters matter_id) [
    | none ↦ t
    | some r ↦ record t {
      matters = set t.matters matter_id (record (row_of m) { created_at = r.created_at });
    }
  ]

  unfoldable pub update_existing :
      String → String → Patch → Tables → Matter → Outcome (Tables × Matter)
  update_existing now matter_id patch t existing =
      let m = seal (merge_draft now existing.draft patch) in
      elim (lost_deadline existing.draft.deadlines m.draft.deadlines) [
        | some d ↦ refused (done_deadline_lost d.action d.date)
        | none ↦ checked t m (done (write_update matter_id m t, m))
      ]

  unfoldable pub update_matter : String → String → Patch → Tables → Outcome (Tables × Matter)
  update_matter now matter_id patch t = elim (get_matter t matter_id) [
    | none ↦ refused (unknown_matter matter_id)
    | some existing ↦ update_existing now matter_id patch t existing
  ]

  -- The second component is whether there was such a matter.
  unfoldable pub delete_matter : String → Tables → Tables × Bool
  delete_matter matter_id t =
      (record t { matters = delete t.matters matter_id }, is_some (get t.matters matter_id))
