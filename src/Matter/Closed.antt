-- ===== src/Matter/Closed.antt =====
-- hub/matter-store.mjs: what was checked when a binding was accepted is enough for the export at
-- the close of the matter.
use ainumbers_helm.HaStore.{Stored}
use ainumbers_helm.Json.{Json}
use ainumbers_helm.Matter.Export.{
  run_json, registered_json, run_evidence, build_run_evidence_export_payload,
  run_id_for_execution_hash, exported_of, external_of, or_gone, exports, artifact_for,
  is_known_kind, export_binding_artifact, export_bindings,
}
use ainumbers_helm.Matter.Pdf.{Exported}
use ainumbers_helm.Matter.Sound.{IsResolved}
use ainumbers_helm.Matter.Store.{
  Binding, Tables, run_with_hash, has_hash, is_some, get_record_by_id, find_attested_artifact,
  resolves,
}
use ainumbers_helm.Prelude.{
  String, Bool, true, false, not, Option, none, some, List, [], ◌∷◌, str_eq, str_eq→eq, str_eq_refl,
  All, ◌≡◌, ◌≢◌, refl, ap, Bool-cases, Option-cases, inl, inr, if◌then◌else◌,
}
use ainumbers_helm.Prelude.Dict.{Dict, get}
use ainumbers_helm.Run.Tables.{Run}

-- The members of an export are those of the bindings, in their order. Each carries what the tables
-- hold for its binding, which is there, but an external reference, which carries nothing.
abbrev pub Describes : (Stored → Json) → Tables → List Binding → List Exported → Type 0
Describes record_json t [] [] = Unit
Describes record_json t (b ∷ bs) (e ∷ es) =
    ((e.subject_hash ≡ b.subject_hash)
      × (e.subject_kind ≡ b.subject_kind)
      × (e.exported ≡ not (str_eq b.subject_kind "external_reference"))
      × (e.artifact ≡ (
          if str_eq b.subject_kind "external_reference"
          then none
          else artifact_for record_json t b))
      × (is_some e.artifact ≡ e.exported))
    × Describes record_json t bs es
Describes record_json t _ _ = ⊥

run_with_hash-Stored :
    (hash : String) (rows : Dict Run) (run_id : String) (r : Run)
    → run_with_hash hash rows ≡ some (run_id, r)
    → get rows run_id ≢ none
unfolding run_with_hash get
run_with_hash-Stored hash [] run_id r h = cc
run_with_hash-Stored hash ((other, x) ∷ rows) run_id r h =
    elim (Bool-cases (has_hash hash x.execution_hash)) [
      | inl e ↦
          let same : other ≡ run_id = cc (rw (run_with_hash, e) at h) in
          rw (same, str_eq_refl run_id) cc
      | inr e ↦
          let rest = run_with_hash-Stored hash rows run_id r (rw (run_with_hash, e) at h) in
          elim (Bool-cases (str_eq other run_id)) [ inl q ↦ rw q cc | inr q ↦ rw q rest ]
    ]

is_some-Meaning {ℓ} : {A : Type ℓ} (o : Option A) → is_some o ≡ true → (a : A) × (o ≡ some a)
unfolding is_some
is_some-Meaning none h = cc
is_some-Meaning (some a) h = (a, refl)

evidence-Found :
    (t : Tables) (hash run_id : String) (x : Run)
    → get t.runs "" ≡ none
    → run_with_hash hash t.runs ≡ some (run_id, x)
    → (v : Json) × (run_evidence t (run_id_for_execution_hash t hash) ≡ some v)
unfolding run_evidence run_id_for_execution_hash build_run_evidence_export_payload
evidence-Found t hash run_id x n found =
    let there = run_with_hash-Stored hash t.runs run_id x found in
    elim (Bool-cases (str_eq run_id "")) [
      | inl e ↦ let empty : run_id ≡ "" = str_eq→eq run_id "" e in absurd (there (rw empty n))
      | inr e ↦ elim (Option-cases (get t.runs run_id)) [
        | inl q ↦ absurd (there q)
        | inr (r, q) ↦ (
          run_json run_id r t.step_results,
          rw
              (
                run_id_for_execution_hash, found, run_evidence, e,
                build_run_evidence_export_payload, q,
              )
              refl,
        )
      ]
    ]

-- A run that a binding resolves to has its evidence.
run-Evidence :
    (t : Tables) (hash : String)
    → get t.runs "" ≡ none
    → is_some (run_with_hash hash t.runs) ≡ true
    → (v : Json) × (run_evidence t (run_id_for_execution_hash t hash) ≡ some v)
run-Evidence t hash n h =
    let found = is_some-Meaning (run_with_hash hash t.runs) h in
    evidence-Found t hash found.0.0 found.0.1 n found.1

truly : {b : Bool} → some b ≡ some true → b ≡ true
truly h = cc

really :
    (t : Tables) (b : Binding)
    → str_eq b.subject_kind "external_reference" ≡ false
    → IsResolved t b
    → resolves t b.subject_kind b.subject_hash ≡ some true
really t b e (inl h) = cc
really t b e (inr h) = h

-- A binding that resolves is exported, with its artifact.
module _ (record_json : Stored → Json) where
  artifact-Found :
      (t : Tables) (b : Binding)
      → get t.runs "" ≡ none
      → resolves t b.subject_kind b.subject_hash ≡ some true
      → (is_known_kind record_json b.subject_kind ≡ true)
        × ((v : Json) × (artifact_for record_json t b ≡ some v))
  unfolding resolves is_known_kind artifact_for
  artifact-Found t b n h = elim (Bool-cases (str_eq b.subject_kind "run")) [
    | inl e ↦
        let v = run-Evidence t b.subject_hash n (truly (rw (resolves, e) at h)) in
        rw (is_known_kind, artifact_for, e) (refl, (v.0, v.1))
    | inr e ↦ elim (Bool-cases (str_eq b.subject_kind "approval_record")) [
      | inl f ↦
          let r =
            is_some-Meaning (get_record_by_id b.subject_hash t.ha_records)
              (truly (rw (resolves, e, f) at h)) in
          rw (is_known_kind, artifact_for, e, f, r.1) (refl, (record_json r.0, refl))
      | inr f ↦ elim (Bool-cases (str_eq b.subject_kind "evidence_bundle")) [
        | inl k ↦
            let r =
              is_some-Meaning (get t.registry b.subject_hash)
                (truly (rw (resolves, e, f, k) at h)) in
            let other : str_eq b.subject_kind "attested_artifact" ≡ false =
              ap (λ s. str_eq s "attested_artifact")
                (str_eq→eq b.subject_kind "evidence_bundle" k) in
            rw (is_known_kind, artifact_for, e, f, other, k, r.1)
              (refl, (registered_json t r.0, refl))
        | inr k ↦ elim (Bool-cases (str_eq b.subject_kind "attested_artifact")) [
          | inl l ↦
              let r =
                is_some-Meaning (find_attested_artifact b.subject_hash t.step_results)
                  (truly (rw (resolves, e, f, k, l) at h)) in
              rw (is_known_kind, artifact_for, e, f, l, r.1) (refl, (r.0.output, refl))
          | inr l ↦ cc (rw (resolves, e, f, k, l) at h)
        ]
      ]
    ]
  ]

  pub export_bindings-Total :
      (t : Tables) (bs : List Binding)
      → get t.runs "" ≡ none
      → All (IsResolved t) bs
      → (es : List Exported) × (export_bindings record_json t bs ≡ exports es)
        × Describes record_json t bs es
  unfolding export_bindings export_binding_artifact or_gone exported_of external_of is_some
  export_bindings-Total t [] n h = ([], refl, tt)
  export_bindings-Total t (b ∷ bs) n h =
      let rest = export_bindings-Total t bs n h.1 in
      elim (Bool-cases (str_eq b.subject_kind "external_reference")) [
        | inl e ↦ (
          external_of b ∷ rest.0,
          rw (export_bindings, export_binding_artifact, e, rest.1) refl,
          ((refl, refl, rw e refl, rw e refl, refl), rest.2),
        )
        | inr e ↦
            let found = artifact-Found t b n (really t b e h.0) in
            (
              (record {
                subject_hash = b.subject_hash;
                subject_kind = b.subject_kind;
                note = b.note;
                exported = true;
                reason = none;
                artifact = some found.1.0;
              })
                  ∷ rest.0,
              rw (export_bindings, export_binding_artifact, e, found.0, found.1.1, rest.1) refl,
              ((refl, refl, rw e refl, rw (e, found.1.1) refl, refl), rest.2),
            )
      ]
