-- ===== src/Matter/Export.antt =====
-- hub/matter-store.mjs: the export of a matter and closeMatter, and buildRunEvidenceExportPayload
-- of hub/run.mjs. `record_json` is the stored JSON of an accountability record.
use ainumbers_helm.Canon.{record_canon_v1}
use ainumbers_helm.Checkpoint.{bytes_lt}
use ainumbers_helm.Envelope.{
  in_toto_statement_type, helm_predicate_type, DsseEnvelope, Signing, Keys, emit_envelope,
}
use ainumbers_helm.HaStore.{Stored}
use ainumbers_helm.Journal.{record_digest}
use ainumbers_helm.Json.{Json, null, bool, str, arr, obj, Items, nil, cons, Fields, end, field}
use ainumbers_helm.Matter.Dat.{build_edrm_dat, e_bundle_pdf_filename, edrm_dat_filename}
use ainumbers_helm.Matter.EBundle.{build_e_bundle_pdf}
use ainumbers_helm.Matter.Pdf.{Exported}
use ainumbers_helm.Matter.Store.{
  Binding, Matter, Registered, Tables, Patch, done, refused, Refusal, run_with_hash,
  get_record_by_id, find_attested_artifact, get_matter, update_matter,
}
use ainumbers_helm.Matter.Texts.{of_codes, to_base64}
use ainumbers_helm.Prelude.{
  ℕ, String, ◌<>◌, Bool, true, false, not, ◌&&◌, Option, none, some, List, [], ◌∷◌, ◌==◌, str_eq,
  if◌then◌else◌, keep,
}
use ainumbers_helm.Prelude.Bytes.{codes, utf8, encode_utf8}
use ainumbers_helm.Prelude.Dict.{Dict, get, set}
use ainumbers_helm.Run.Tables.{Run, StepResult, state_name}

insert_result : StepResult → List StepResult → List StepResult
insert_result r [] = r ∷ []
insert_result r (s ∷ ss) =
    let rest = insert_result r ss in
    if bytes_lt (utf8 s.completed_at) (utf8 r.completed_at) then s ∷ rest else r ∷ s ∷ ss

-- ORDER BY completed_at ASC
by_completion : List StepResult → List StepResult
unfolding insert_result
by_completion [] = []
by_completion (r ∷ rs) = insert_result r (by_completion rs)

result_items : List StepResult → Items
result_items [] = nil
result_items (r ∷ rs) =
    cons
      (obj (
        field "step_id" (str r.step_id) (
          field "output_digest" (str r.output_digest)
            (field "completed_at" (str r.completed_at) end))))
      (result_items rs)

text_or_null : Option String → Json
text_or_null none = null
text_or_null (some s) = str s

unfoldable pub run_json : String → Run → List StepResult → Json
unfolding by_completion result_items text_or_null
run_json run_id r results = obj (
    field "trust_label" (str "hash_verified") (
      field "run_id" (str run_id) (
        field "state" (str (state_name r.state)) (
          field "execution_hash" (text_or_null r.execution_hash) (
            field "workflow_manifest_digest" (str r.workflow_manifest_digest) (
              field "steps"
                (arr (
                  result_items
                    (by_completion (keep (λ (s : StepResult). str_eq s.run_id run_id) results))))
                end))))))

unfoldable pub build_run_evidence_export_payload : Tables → String → Option Json
build_run_evidence_export_payload t run_id = elim (get t.runs run_id) [
  | none ↦ none
  | some r ↦ some (run_json run_id r t.step_results)
]

-- runId ? buildRunEvidenceExportPayload(db, runId) : null, where the empty text counts as none
unfoldable pub run_evidence : Tables → Option String → Option Json
run_evidence t none = none
run_evidence t (some run_id) =
    if str_eq run_id "" then none else build_run_evidence_export_payload t run_id

unfoldable pub run_id_for_execution_hash : Tables → String → Option String
run_id_for_execution_hash t hash = elim (run_with_hash hash t.runs) [
  | none ↦ none
  | some row ↦ some row.0
]

with_evidence : Option Json → Fields
with_evidence none = end
with_evidence (some e) = field "run_evidence" e end

unfoldable pub registered_json : Tables → Registered → Json
unfolding with_evidence text_or_null
registered_json t r = obj (
    field "registered_at" (str r.registered_at)
      (field "run_id" (text_or_null r.run_id) (with_evidence (run_evidence t r.run_id))))

unfoldable pub exported_of : Binding → Option Json → Option Exported
exported_of b none = none
exported_of b (some artifact) = some (record {
  subject_hash = b.subject_hash;
  subject_kind = b.subject_kind;
  note = b.note;
  exported = true;
  reason = none;
  artifact = some artifact;
})

unfoldable pub external_of : Binding → Exported
external_of b = record {
  subject_hash = b.subject_hash;
  subject_kind = b.subject_kind;
  note = b.note;
  exported = false;
  reason =
      some "external_reference — hashed but never verified by Helm; nothing local to export (§2)";
  artifact = none;
}

pub record ExportPredicate : Type 0 where
  pub matter_id : String
  pub matter_manifest_digest : String
  pub exported_at : String
  pub bindings_export : List Exported
  pub e_bundle_pdf_base64 : String
  pub e_bundle_pdf_filename : String
  pub edrm_dat_text : String
  pub edrm_dat_filename : String

-- a row of `matter_exports`
pub record MatterExport : Type 0 where
  pub manifest : Matter
  pub predicate : ExportPredicate
  pub envelope : DsseEnvelope
  pub envelope_digest : String
  pub created_at : String

optional_field : String → Option String → Fields → Fields
optional_field k none rest = rest
optional_field k (some s) rest = field k (str s) rest

artifact_field : Option Json → Fields
artifact_field none = end
artifact_field (some v) = field "artifact" v end

exported_items : List Exported → Items
unfolding optional_field artifact_field
exported_items [] = nil
exported_items (b ∷ bs) =
    cons
      (obj (
        field "subject_hash" (str b.subject_hash) (
          field "subject_kind" (str b.subject_kind) (
            optional_field "note" b.note (
              field "exported" (bool b.exported)
                (optional_field "reason" b.reason (artifact_field b.artifact)))))))
      (exported_items bs)

predicate_json : ExportPredicate → Json
unfolding exported_items
predicate_json p = obj (
    field "matter_id" (str p.matter_id) (
      field "matter_manifest_digest" (str p.matter_manifest_digest) (
        field "exported_at" (str p.exported_at) (
          field "bindings_export" (arr (exported_items p.bindings_export)) (
            field "e_bundle_pdf_base64" (str p.e_bundle_pdf_base64) (
              field "e_bundle_pdf_filename" (str p.e_bundle_pdf_filename) (
                field "edrm_dat_text" (str p.edrm_dat_text)
                  (field "edrm_dat_filename" (str p.edrm_dat_filename) end))))))))

-- text.replace(/^sha256:/, "")
strip_from : List ℕ → List ℕ → List ℕ → List ℕ
strip_from [] cs all = cs
strip_from (p ∷ ps) [] all = all
strip_from (p ∷ ps) (c ∷ cs) all = let rest = strip_from ps cs all in if p == c then rest else all

unfoldable pub strip_prefix : String → String
unfolding strip_from
strip_prefix s = of_codes (strip_from (codes "sha256:") (codes s) (codes s))

unfoldable pub export_statement : ExportPredicate → Json
unfolding predicate_json
export_statement p = obj (
    field "_type" (str in_toto_statement_type) (
      field "subject"
        (arr (
          cons
            (obj (
              field "name" (str "matter_manifest") (
                field "digest"
                  (obj (field "sha256" (str (strip_prefix p.matter_manifest_digest)) end)) end)))
            nil))
        (field "predicateType" (str (helm_predicate_type "matter_export"))
          (field "predicate" (predicate_json p) end))))

pub data ExportError : Type 0 where
  gone : String → String → ExportError
  not_exportable : String → ExportError
  no_matter : String → ExportError
  not_closed : String → ExportError

pub data Export {ℓ} (A : Type ℓ) : Type ℓ where
  exports : A → Export A
  export_failed : ExportError → Export A

unfoldable pub or_gone : Binding → Option Exported → Export Exported
or_gone b none = export_failed (gone b.subject_kind b.subject_hash)
or_gone b (some e) = exports e

module _ (record_json : Stored → Json) where
  -- The artifact of a binding of a known kind.
  unfoldable pub artifact_for : Tables → Binding → Option Json
  artifact_for t b =
      if str_eq b.subject_kind "run"
      then run_evidence t (run_id_for_execution_hash t b.subject_hash)
      else if str_eq b.subject_kind "approval_record"
      then (elim (get_record_by_id b.subject_hash t.ha_records) as (λ _. Option Json) [
        | none ↦ none
        | some r ↦ some (record_json r)
      ])
      else if str_eq b.subject_kind "attested_artifact"
      then (elim (find_attested_artifact b.subject_hash t.step_results) as (λ _. Option Json) [
        | none ↦ none
        | some r ↦ some r.output
      ])
      else (elim (get t.registry b.subject_hash) as (λ _. Option Json) [
        | none ↦ none
        | some r ↦ some (registered_json t r)
      ])

  unfoldable pub is_known_kind : String → Bool
  is_known_kind kind =
      if str_eq kind "run"
      then true
      else if str_eq kind "approval_record"
      then true
      else if str_eq kind "attested_artifact"
      then true
      else str_eq kind "evidence_bundle"

  unfoldable pub export_binding_artifact : Tables → Binding → Export Exported
  export_binding_artifact t b =
      if str_eq b.subject_kind "external_reference"
      then exports (external_of b)
      else if is_known_kind b.subject_kind
      then or_gone b (exported_of b (artifact_for t b))
      else export_failed (not_exportable b.subject_kind)

  -- bindings.map: the first throw ends it
  unfoldable pub export_bindings : Tables → List Binding → Export (List Exported)
  export_bindings t [] = exports []
  export_bindings t (b ∷ bs) =
      let rest = export_bindings t bs in
      elim (export_binding_artifact t b) [
        | export_failed e ↦ export_failed e
        | exports x ↦ elim rest [
          | export_failed e ↦ export_failed e
          | exports xs ↦ exports (x ∷ xs)
        ]
      ]

  unfoldable pub predicate_for : String → Matter → List Exported → ExportPredicate
  predicate_for now m bs = record {
    matter_id = m.draft.matter_id;
    matter_manifest_digest = m.manifest_digest;
    exported_at = now;
    bindings_export = bs;
    e_bundle_pdf_base64 = of_codes (to_base64 (build_e_bundle_pdf m.draft bs));
    e_bundle_pdf_filename = e_bundle_pdf_filename m.draft;
    edrm_dat_text = of_codes (build_edrm_dat m.draft bs);
    edrm_dat_filename = edrm_dat_filename m.draft;
  }

  module _ (sha256_hex : List ℕ → String) (validate : Matter → List String) (g : Signing) where
    -- The row that persistMatterExport writes; the digest is that of the signed statement.
    unfoldable pub sealed_export : String → Keys g → Matter → List Exported → MatterExport
    sealed_export now keys m bs =
        let p = predicate_for now m bs in
        record {
          manifest = m;
          predicate = p;
          envelope = emit_envelope g (encode_utf8 (record_canon_v1 (export_statement p))) keys;
          envelope_digest = "sha256:" <> record_digest sha256_hex (export_statement p);
          created_at = now;
        }

    unfoldable pub assemble_matter_export : String → Keys g → Tables → String → Export MatterExport
    assemble_matter_export now keys t matter_id =
        elim (get_matter sha256_hex validate t matter_id) [
          | none ↦ export_failed (no_matter matter_id)
          | some m ↦
              let all : Export MatterExport = elim (export_bindings t m.draft.bindings) [
                | export_failed e ↦ export_failed e
                | exports bs ↦ exports (sealed_export now keys m bs)
              ] in
              if str_eq m.draft.status "closed" then all else export_failed (not_closed matter_id)
        ]

    -- The tables with `matter_exports`.
    pub record Archive : Type 0 where
      pub tables : Tables
      pub exports : Dict MatterExport

    -- What closeMatter returns or throws; a throw of the export leaves the update in the tables.
    pub data Closing : Type 0 where
      closed : Matter → Option MatterExport → Closing
      update_refused : Refusal → Closing
      export_refused : ExportError → Closing

    unfoldable pub was_closed : Option Matter → Bool
    was_closed none = false
    was_closed (some m) = str_eq m.draft.status "closed"

    unfoldable pub persist : String → Matter → Export MatterExport → Archive → Archive × Closing
    persist matter_id m (export_failed e) a = (a, export_refused e)
    persist matter_id m (exports x) a =
        (record a { exports = set a.exports matter_id x }, closed m (some x))

    unfoldable pub emit : String → Option (Keys g) → String → Matter → Archive → Archive × Closing
    emit now none matter_id m a = (a, closed m none)
    emit now (some keys) matter_id m a =
        persist matter_id m (assemble_matter_export now keys a.tables matter_id) a

    unfoldable pub close_matter :
        String → String → Patch → Option (Keys g) → Archive → Archive × Closing
    close_matter now matter_id patch keys a =
        let before = get_matter sha256_hex validate a.tables matter_id in
        elim (update_matter sha256_hex validate now matter_id patch a.tables) [
          | refused why ↦ (a, update_refused why)
          | done (t, m) ↦
              let b : Archive = record a { tables = t } in
              if str_eq m.draft.status "closed" && not (was_closed before)
              then emit now keys matter_id m b
              else (b, closed m none)
        ]

    -- getMatterExport
    unfoldable pub get_matter_export : Archive → String → Option MatterExport
    get_matter_export a matter_id = get a.exports matter_id
