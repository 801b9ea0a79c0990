-- ===== src/HaGate/Attest.antt =====
-- hub/ha-gate.mjs: the signed records and signatures that the hub takes in, and the two checks after
-- which it signs itself. The keys that a did:key names and the signatures on them are the parameter
-- `Crypto`, and the kernel runner is `rerun`.
use ainumbers_helm.HaStore.{
  HaRecord, MakerSignature, Countersignature, Slot, Store, Refusal, Outcome, returned, refused,
  Validator, append_ha_record, set_maker_signature, add_countersignature, is_attester_kind,
  is_empty,
}
use ainumbers_helm.Json.{Json, obj, Fields, end, field}
use ainumbers_helm.Journal.{record_digest}
use ainumbers_helm.Prelude.{
  ℕ, String, ◌<>◌, Bool, true, false, ◌&&◌, Option, none, some, List, [], ◌∷◌, str_eq,
  if◌then◌else◌, find, keep,
}
use ainumbers_helm.Run.Manifest.{Kind, nodes, attested_artifacts, Step, Error, ok, err}
use ainumbers_helm.Run.Plan.{plan_steps}
use ainumbers_helm.Run.Tables.{Run, StepResult}
use ainumbers_helm.HaGate.Check.{artifact_hash, member_json}
use text.Mathlib.Text.{starts_with}

pub record Crypto : Type 1 where
  pub PublicKey : Type 0
  pub did_key : String → Option PublicKey
  pub verification_method : HaRecord → Option String
  pub verify_record : HaRecord → PublicKey → Option Bool
  pub verify_text : PublicKey → String → String → Option Bool

-- the identity that a checker signs with
pub record Identity : Type 0 where
  pub id : String
  pub sign : String → String

-- `none` is what the surrounding try catches.
unfoldable pub is_verified : Option Bool → Bool
is_verified (some true) = true
is_verified _ = false

-- verificationMethod?.startsWith(identity.id)
names_identity : Option String → String → Bool
names_identity none id = false
names_identity (some m) id = starts_with m id

-- helm's own signature on a digest
unfoldable pub sign_bundle_digest : Identity → String → MakerSignature
sign_bundle_digest identity digest = record {
  keyid = identity.id;
  sig = identity.sign digest;
  alg = "EdDSA";
  attester_kind = "";
}

pub data Rejection : Type 0 where
  record_unverified signature_unverified keyid_mismatch no_kind_stated : Rejection
  unknown_run unknown_step : String → Rejection
  wrong_kind : String → Rejection
  nothing_recorded no_artifact_hash : Rejection
  store_refused : Refusal → Rejection
  plan_failed : Error → Rejection
  runner_failed : Rejection

pub data Answer {ℓ} (A : Type ℓ) : Type ℓ where
  answered : A → Answer A
  rejected : Rejection → Answer A

unfoldable pub of_outcome {ℓ} : {A : Type ℓ} → Outcome A → Answer A
of_outcome (returned a) = answered a
of_outcome (refused r) = rejected (store_refused r)

module _ (y : Crypto) where
  unfoldable pub verify_with : Option y.PublicKey → (y.PublicKey → Option Bool) → Bool
  unfolding is_verified
  verify_with none check = false
  verify_with (some key) check = is_verified (check key)

  unfoldable pub verify_ha_record_signature : HaRecord → Bool
  unfolding verify_with names_identity
  verify_ha_record_signature r =
      names_identity (y.verification_method r) r.identity_id
      && verify_with (y.did_key r.identity_id) (y.verify_record r)

  unfoldable pub submit_ha_record : Validator → ℕ → HaRecord → Store → Store × Answer String
  submit_ha_record v now r s =
      let stored = append_ha_record v now r s in
      if verify_ha_record_signature r
      then (stored.0, of_outcome stored.1)
      else (s, rejected record_unverified)

  unfoldable pub verify_bundle_digest_signature : String → String → String → String → Bool
  unfolding verify_with
  verify_bundle_digest_signature digest keyid sig alg =
      if str_eq alg "EdDSA"
      then (if is_empty keyid
          then false
          else if is_empty sig
          then false
          else verify_with (y.did_key keyid) (λ key. y.verify_text key sig digest))
      else false

  unfoldable pub submit_maker_signature : String → MakerSignature → Store → Store × Answer Slot
  submit_maker_signature subject m s =
      let stored = set_maker_signature s subject m in
      if verify_bundle_digest_signature subject m.keyid m.sig m.alg
      then (if is_attester_kind m.attester_kind
          then (stored.0, of_outcome stored.1)
          else (s, rejected no_kind_stated))
      else (s, rejected signature_unverified)

  -- `alg` is the algorithm that the signature names.
  unfoldable pub submit_countersignature :
      String → Countersignature → String → Store → Store × Answer Slot
  submit_countersignature subject c alg s =
      let stored = add_countersignature s subject c none in
      if str_eq c.keyid c.identity_id
      then (if verify_bundle_digest_signature subject c.keyid c.sig alg
          then (stored.0, of_outcome stored.1)
          else (s, rejected signature_unverified))
      else (s, rejected keyid_mismatch)

-- A member, left out where it is undefined.
abbrev pub pinned : String → Option Json → Fields → Fields
pinned k none rest = rest
pinned k (some v) rest = field k v rest

-- The rows of a step, of which the code takes the last.
unfoldable pub last_result : List StepResult → Option StepResult
last_result [] = none
last_result (r ∷ rs) = elim (last_result rs) [ none ↦ some r | some x ↦ some x ]

unfoldable pub recorded_output : List StepResult → String → String → Option StepResult
unfolding last_result
recorded_output results run_id step_id =
    last_result
      (keep (λ (r : StepResult). str_eq r.run_id run_id && str_eq r.step_id step_id) results)

is_kind : Kind → Kind → Bool
is_kind nodes nodes = true
is_kind attested_artifacts attested_artifacts = true
is_kind _ _ = false

pub record Replayed : Type 0 where
  pub matched : Bool
  pub claimed_hash : String
  pub recomputed_hash : String
  pub slot : Slot

module _ (sha256_hex : List ℕ → String) where
  recorded_for : Option StepResult → Step → Answer (Step × String)
  unfolding artifact_hash
  recorded_for none step = rejected nothing_recorded
  recorded_for (some r) step = elim (artifact_hash (some r.output)) [
    | none ↦ rejected no_artifact_hash
    | some hash ↦ answered (step, hash)
  ]

  step_in : Kind → List StepResult → String → String → List Step → Answer (Step × String)
  unfolding recorded_for is_kind
  step_in kind results run_id step_id steps =
      elim (find (λ (s : Step). str_eq s.step_id step_id) steps) [
        | none ↦ rejected (unknown_step step_id)
        | some step ↦
            let found : Answer (Step × String) =
              recorded_for (recorded_output results run_id step_id) step in
            if is_kind kind step.kind then found else rejected (wrong_kind step_id)
      ]

  -- What both checks do first: the step of the run, and the hash that its output claims.
  unfoldable pub claimed_step :
      Kind → Option Run → List StepResult → String → String → Answer (Step × String)
  unfolding step_in
  claimed_step kind none results run_id step_id = rejected (unknown_run run_id)
  claimed_step kind (some run) results run_id step_id =
      elim (plan_steps (record_digest sha256_hex) run.manifest) [
        | err e ↦ rejected (plan_failed e)
        | ok steps ↦ step_in kind results run_id step_id steps
      ]

  -- The checker's countersignature; the signature's own alg is not kept in a slot.
  unfoldable pub checker_countersignature :
      Identity → String → String → Option Bool → String → Countersignature
  unfolding sign_bundle_digest
  checker_countersignature identity claimed now replay_verified kind =
      let signature = sign_bundle_digest identity claimed in
      record {
        role = "checker";
        identity_id = identity.id;
        keyid = signature.keyid;
        sig = signature.sig;
        signed_at = now;
        replay_verified = replay_verified;
        attester_kind = kind;
      }

  unfoldable pub counted : Store → Outcome Slot → Bool → String → String → Store × Answer Replayed
  counted s (refused r) matched claimed recomputed = (s, rejected (store_refused r))
  counted s (returned slot) matched claimed recomputed = (
    s,
    answered (record {
      matched = matched;
      claimed_hash = claimed;
      recomputed_hash = recomputed;
      slot = slot;
    }),
  )

  replayed_with : Identity → String → Store → String → Option String → Store × Answer Replayed
  unfolding counted
  replayed_with identity now s hash none = (s, rejected runner_failed)
  replayed_with identity now s hash (some fresh) =
      let claimed = "sha256:" <> hash in
      let matched = str_eq fresh hash in
      let c = checker_countersignature identity claimed now (some matched) "automated" in
      let added = add_countersignature s claimed c none in
      counted added.0 added.1 matched claimed fresh

  -- recordReplay; `rerun` is the execution hash that the kernel runner gives for the step again.
  unfoldable pub record_replay :
      (Step → Option String)
      → Identity
      → String
      → Option Run
      → List StepResult
      → String
      → String
      → Store
      → Store × Answer Replayed
  unfolding replayed_with
  record_replay rerun identity now run results run_id step_id s =
      elim (claimed_step nodes run results run_id step_id) [
        | rejected why ↦ (s, rejected why)
        | answered (step, hash) ↦ replayed_with identity now s hash (rerun step)
      ]

  -- The hash over the three members that the step pins.
  unfoldable pub binding_hash : Json → String
  unfolding member_json
  binding_hash item =
      let artifact = member_json (some item) "artifact" in
      record_digest sha256_hex (
        obj (
          pinned "tool_ref" (member_json (some item) "tool_ref") (
            pinned "inputs_digest" (member_json (some item) "inputs_digest") (
              field "artifact"
                (obj (
                  pinned "content_type" (member_json artifact "content_type")
                    (pinned "content_digest" (member_json artifact "content_digest") end)))
                end))))

  -- signHaRecord of the approval; `sign` gives the rest of the record with its proof.
  unfoldable pub approval_of : (HaRecord → String) → Identity → String → String → HaRecord
  approval_of sign identity claimed body =
      let unsigned : HaRecord = record {
        record_type = "approval";
        role = "approver";
        subject_hash = claimed;
        identity_id = identity.id;
        body = body;
      } in
      record unsigned { body = sign unsigned }

  unfoldable pub approve :
      Validator → ℕ → HaRecord → Bool → Store × Answer Replayed → Store × Answer Replayed
  approve v at approval matched (s, rejected why) = (s, rejected why)
  approve v at approval false (s, answered r) = (s, answered r)
  approve v at approval true (s, answered r) =
      let stored = append_ha_record v at approval s in
      elim stored.1 [
        | returned id ↦ (stored.0, answered r)
        | refused why ↦ (stored.0, rejected (store_refused why))
      ]

  -- recordArtifactBindingVerification; `sign` gives the approval's proof, and `body` is its
  -- decision, reason and timestamp.
  unfoldable pub record_artifact_binding_verification :
      Validator
      → (HaRecord → String)
      → String
      → Identity
      → String
      → ℕ
      → String
      → Option Run
      → List StepResult
      → String
      → String
      → Store
      → Store × Answer Replayed
  unfolding counted approve
  record_artifact_binding_verification v sign body identity now at kind run results run_id step_id
        s =
      let go : Store × Answer Replayed =
        elim (claimed_step attested_artifacts run results run_id step_id) [
          | rejected why ↦ (s, rejected why)
          | answered (step, hash) ↦
              let claimed = "sha256:" <> hash in
              let recomputed = binding_hash step.item.json in
              let matched = str_eq recomputed hash in
              let c = checker_countersignature identity claimed now none kind in
              let added = add_countersignature s claimed c none in
              approve v at (approval_of sign identity claimed body) matched
                (counted added.0 added.1 matched claimed recomputed)
        ] in
      if is_attester_kind kind then go else (s, rejected no_kind_stated)
