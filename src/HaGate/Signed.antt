-- ===== src/HaGate/Signed.antt =====
-- hub/ha-gate.mjs: a countersignature reaches the store only after its signature is verified, and an
-- automated check of a binding leaves an approval.
use ainumbers_helm.HaGate.Attest.{
  Crypto, Identity, answered, verify_with, is_verified, verify_bundle_digest_signature,
  submit_countersignature, Replayed, claimed_step, counted, approve, checker_countersignature,
  binding_hash, approval_of, record_artifact_binding_verification,
}
use ainumbers_helm.HaStore.Records.{any-records_for_subject}
use ainumbers_helm.HaStore.{
  is_attester_kind, records_for_subject, keyid_of, is_maker, same_act, get_or_init_slot,
  decide_countersignature, HaRecord, Countersignature, Slot, Store, returned, Validator, has_id,
  append_ha_record, add_countersignature, is_empty,
}
use ainumbers_helm.Prelude.{
  any, ◌++◌, ◌∷◌, [], Bool, List, false, ◌&&◌, if◌then◌else◌, ℕ, String, ◌<>◌, Bool, true, Option,
  none, some, List, str_eq, str_eq→eq, str_eq_refl, ◌≡◌, ◌⊎◌, refl, sym, ◌∙◌, ap, Bool-cases,
  Option-cases, inl, inr,
}
use ainumbers_helm.Prelude.Dict.{get}
use ainumbers_helm.Run.Manifest.{attested_artifacts, Step}
use ainumbers_helm.Run.Tables.{Run, StepResult}

module _ (y : Crypto) where
  verified-Meaning :
      (o : Option y.PublicKey) (check : y.PublicKey → Option Bool)
      → verify_with y o check ≡ true
      → (key : y.PublicKey) × (o ≡ some key) × (check key ≡ some true)
  unfolding verify_with is_verified
  verified-Meaning none check h = cc
  verified-Meaning (some key) check h = elim (Option-cases (check key)) [
    | inl e ↦ cc (rw (verify_with, is_verified, e) at h)
    | inr (b, e) ↦ elim (Bool-cases b) [
      | inl t ↦ (key, refl, e ∙ ap (λ x. some x) t)
      | inr f ↦ cc (rw (verify_with, is_verified, e, f) at h)
    ]
  ]

  -- The signature on the subject, of the key that the checker's own identity names.
  abbrev pub IsSigned : String → Countersignature → String → Type 0
  IsSigned subject c alg =
      (c.keyid ≡ c.identity_id)
      × (alg ≡ "EdDSA")
      × ((key : y.PublicKey) × (y.did_key c.identity_id ≡ some key)
          × (y.verify_text key c.sig subject ≡ some true))

  verify_bundle-Meaning :
      (subject keyid sig alg : String)
      → verify_bundle_digest_signature y subject keyid sig alg ≡ true
      → (alg ≡ "EdDSA")
        × ((key : y.PublicKey) × (y.did_key keyid ≡ some key)
            × (y.verify_text key sig subject ≡ some true))
  unfolding verify_bundle_digest_signature
  verify_bundle-Meaning subject keyid sig alg h = elim (Bool-cases (str_eq alg "EdDSA")) [
    | inr e ↦ cc (rw (verify_bundle_digest_signature, e) at h)
    | inl e ↦ elim (Bool-cases (is_empty keyid)) [
      | inl f ↦ cc (rw (verify_bundle_digest_signature, e, f) at h)
      | inr f ↦ elim (Bool-cases (is_empty sig)) [
        | inl k ↦ cc (rw (verify_bundle_digest_signature, e, f, k) at h)
        | inr k ↦ (
          str_eq→eq alg "EdDSA" e,
          verified-Meaning (y.did_key keyid) (λ key. y.verify_text key sig subject)
              (rw (verify_bundle_digest_signature, e, f, k) at h),
        )
      ]
    ]
  ]

  -- A call of submitCountersignature leaves the store as it was, unless the countersignature bears
  -- an EdDSA signature on the subject of the key that the claimed identity itself names.
  pub submit_countersignature-Signed :
      (subject : String) (c : Countersignature) (alg : String) (s : Store)
      → ((submit_countersignature y subject c alg s).0 ≡ s) ⊎ IsSigned subject c alg
  unfolding submit_countersignature
  submit_countersignature-Signed subject c alg s =
      elim (Bool-cases (str_eq c.keyid c.identity_id)) [
        | inr e ↦ inl (rw (submit_countersignature, e) refl)
        | inl e ↦ elim (Bool-cases (verify_bundle_digest_signature y subject c.keyid c.sig alg)) [
          | inr f ↦ inl (rw (submit_countersignature, e, f) refl)
          | inl f ↦
              let same : c.keyid ≡ c.identity_id = str_eq→eq c.keyid c.identity_id e in
              let m = verify_bundle-Meaning subject c.keyid c.sig alg f in
              inr (same, m.0, (m.1.0, ap (λ k. y.did_key k) (sym same) ∙ m.1.1, m.1.2))
        ]
      ]

appended :
    (v : Validator) (now : ℕ) (r : HaRecord) (s : Store)
    → v.validate_shape r ≡ true
    → has_id (v.record_digest r) s.records ≡ false
    → ((append_ha_record v now r s).1 ≡ returned (v.record_digest r))
      × ((append_ha_record v now r s).0.records
          ≡ s.records
            ++ (record { record_id = v.record_digest r; content = r; created_at = now }) ∷ [])
unfolding append_ha_record
appended v now r s h new = (rw (append_ha_record, h) refl, rw (append_ha_record, h, new) refl)

countersigned :
    (s : Store) (subject : String) (c : Countersignature) (slot : Slot)
    → get s.slots subject ≡ some slot
    → is_empty (keyid_of slot.maker_signature) ≡ false
    → is_maker c (keyid_of slot.maker_signature) ≡ false
    → is_attester_kind c.attester_kind ≡ true
    → (slot' : Slot) × ((add_countersignature s subject c none).1 ≡ returned slot')
      × ((add_countersignature s subject c none).0.records ≡ s.records)
unfolding add_countersignature get_or_init_slot decide_countersignature
countersigned s subject c slot h made other kind = (
  (if any (λ x. same_act x c) slot.countersignatures
      then slot
      else record slot { countersignatures = slot.countersignatures ++ c ∷ [] }),
  rw (add_countersignature, get_or_init_slot, h, decide_countersignature, made, other, kind) refl,
  rw (add_countersignature, get_or_init_slot, h, decide_countersignature, made, other, kind) refl,
)

-- An approval in the role of an approver, by the identity.
abbrev pub approves : String → HaRecord → Bool
approves id r =
    str_eq r.record_type "approval" && str_eq r.role "approver" && str_eq r.identity_id id

approved :
    (sha256_hex : List ℕ → String) (v : Validator) (at' : ℕ) (r : HaRecord) (s : Store)
    (x : Replayed) (id subject : String)
    → v.validate_shape r ≡ true
    → has_id (v.record_digest r) s.records ≡ false
    → approves id r ≡ true
    → str_eq r.subject_hash subject ≡ true
    → any
        (approves id)
        (records_for_subject (approve sha256_hex v at' r true (s, answered x)).0 subject)
      ≡ true
unfolding approve
approved sha256_hex v at' r s x id subject h new ok mine =
    let a = appended v at' r s h new in
    rw (approve, a.0)
      (any-records_for_subject (approves id) (append_ha_record v at' r s).0 subject s.records
        (record { record_id = v.record_digest r; content = r; created_at = at' }) a.1 mine ok)

-- Let a checker whose stated kind is "automated" verify the binding of a step of the run whose
-- recorded hash is that of its pinned members; let the slot of that hash have a maker of another
-- identity, and the approval that the code builds have a shape that the validator accepts and a
-- digest that no record has yet. Then the records that the gate is asked with for that hash have an
-- approval in the role of an approver by the identity of the automated checker.
pub automated_approval :
    (sha256_hex : List ℕ → String) (v : Validator) (sign : HaRecord → String) (body : String)
    (identity : Identity) (now : String) (at' : ℕ) (run : Option Run) (results : List StepResult)
    (run_id step_id : String) (s : Store) (step : Step) (hash : String) (slot : Slot)
    → claimed_step sha256_hex attested_artifacts run results run_id step_id ≡ answered (step, hash)
    → binding_hash sha256_hex step.item.json ≡ hash
    → get s.slots ("sha256:" <> hash) ≡ some slot
    → is_empty (keyid_of slot.maker_signature) ≡ false
    → is_maker
        (checker_countersignature sha256_hex identity ("sha256:" <> hash) now none "automated")
        (keyid_of slot.maker_signature)
      ≡ false
    → let approval = approval_of sha256_hex sign identity ("sha256:" <> hash) body in
      (v.validate_shape approval ≡ true)
      → has_id (v.record_digest approval) s.records ≡ false
      → any (approves identity.id) (
          records_for_subject
            (record_artifact_binding_verification sha256_hex v sign body identity now at'
              "automated" run results run_id step_id s).0
            ("sha256:" <> hash))
        ≡ true
unfolding record_artifact_binding_verification counted checker_countersignature approval_of
automated_approval sha256_hex v sign body identity now at' run results run_id step_id s step hash
      slot found e there made other shape new =
    let claimed : String = "sha256:" <> hash in
    let c : Countersignature =
      checker_countersignature sha256_hex identity claimed now none "automated" in
    let approval : HaRecord = approval_of sha256_hex sign identity claimed body in
    let same : str_eq (binding_hash sha256_hex step.item.json) hash ≡ true =
      rw e (str_eq_refl hash) in
    let taken = countersigned s claimed c slot there made other refl in
    let mine : approves identity.id approval ≡ true = rw (str_eq_refl identity.id) refl in
    rw (record_artifact_binding_verification, found, same, taken.1)
      (approved sha256_hex v at' approval (add_countersignature s claimed c none).0
        (record {
          matched = true;
          claimed_hash = claimed;
          recomputed_hash = binding_hash sha256_hex step.item.json;
          slot = taken.0;
        })
        identity.id claimed shape (rw taken.2 new) mine (str_eq_refl claimed))
