-- ===== src/KeyLifecycle/Tests.antt =====
-- Runs of the model of hub/key-lifecycle.mjs. The payload of a test is one number; the hash writes it
-- out, and every signature with a text verifies.
use ainumbers_helm.Prelude.{
  ℕ, String, ◌≡◌, refl, true, false, none, some, List, [], ◌∷◌, str_eq, All, ◌==◌, if◌then◌else◌,
}
use ainumbers_helm.Prelude.Dict.{set}
use ainumbers_helm.KeyLifecycle.{
  Crypto, Envelope, Event, Rotation, Head, Ending, continuous, fork_detected, Parsed, event,
  candidates, dedupe, event_digest, verify_signature_by_label, decode_rotations, next_head,
  check_rotation, genesis, verify_key_lineage, assert_rotation_appendable,
}
use ainumbers_helm.KeyLifecycle.Audit.{verify_key_lineage_ends}
use ainumbers_helm.KeyLifecycle.Decoded.{rotations_of}
use ainumbers_helm.KeyLifecycle.Guard.{guard_keeps_audit}
use ainumbers_helm.KeyLifecycle.Lineage.{Meaning, verify_key_lineage-Meaning}

abbrev number_of : List ℕ → ℕ
number_of [] = 9
number_of (n ∷ ns) = n

abbrev name_of : List ℕ → String
name_of bs =
    let n = number_of bs in
    if n == 0 then "zero" else if n == 1 then "one" else if n == 2 then "two" else "three"

abbrev bytes_of : String → List ℕ
bytes_of s = if str_eq s "k1" then 1 ∷ [] else if str_eq s "k2" then 2 ∷ [] else 3 ∷ []

abbrev first_event : Event
first_event = record {
  key_event = some "inception";
  identity_seq = some 0;
  prev_event_digest = none;
  public_key = some "k0";
  revealed_public_key = none;
  next_key_commitment = some "sha256:one";
}

abbrev rotation_event : ℕ → String → String → String → Event
rotation_event n prev key next = record {
  key_event = some "rotation";
  identity_seq = some n;
  prev_event_digest = some prev;
  public_key = none;
  revealed_public_key = some key;
  next_key_commitment = some next;
}

abbrev parse : List ℕ → Parsed
parse bs =
    let n = number_of bs in
    if n == 0
    then event first_event
    else if n == 1
    then event (rotation_event 1 "sha256:zero" "k1" "sha256:two")
    else if n == 2
    then event (rotation_event 2 "sha256:one" "k2" "sha256:three")
    else event (rotation_event 1 "sha256:zero" "k1" "sha256:three")

abbrev crypto : Crypto
crypto = record {
  sha256_hex = name_of;
  from_base64 = bytes_of;
  parse = parse;
  verify = λ message key sig. true;
}

abbrev envelope : ℕ → String → Envelope
envelope n label = record {
  payload_type = "application/vnd.helm.key-event+json";
  payload = n ∷ [];
  signatures = record { label = label; alg = "EdDSA"; sig = "s" } ∷ [];
}

abbrev first : Envelope
first = envelope 0 "self"

abbrev head_zero : Head
head_zero = genesis crypto first first_event

abbrev rotation_one : Rotation
rotation_one = record {
  envelope = envelope 1 "revealed";
  event = rotation_event 1 "sha256:zero" "k1" "sha256:two";
  digest = "sha256:one";
}

abbrev head_one : Head
head_one = next_head crypto head_zero rotation_one

one_rotation_run :
    verify_key_lineage crypto (first ∷ envelope 1 "revealed" ∷ []) ≡ some (continuous head_one)
unfolding verify_key_lineage verify_signature_by_label decode_rotations set event_digest
    check_rotation
one_rotation_run = refl

verify_key_lineage_ends_example :
    (v : Ending) × (verify_key_lineage crypto (first ∷ envelope 1 "revealed" ∷ []) ≡ some v)
verify_key_lineage_ends_example =
    verify_key_lineage_ends crypto (first ∷ envelope 1 "revealed" ∷ [])

verify_key_lineage-Meaning_example :
    Meaning crypto first
      (envelope 1 "revealed" ∷ [])
      (rotations_of crypto (envelope 1 "revealed" ∷ []))
      (continuous head_one)
verify_key_lineage-Meaning_example =
    verify_key_lineage-Meaning crypto first (envelope 1 "revealed" ∷ []) (continuous head_one)
      one_rotation_run

-- Two rotations of one head, in either order, are a fork.
fork_run :
    verify_key_lineage crypto (first ∷ envelope 3 "revealed" ∷ envelope 1 "revealed" ∷ [])
    ≡ some (fork_detected ("sha256:three" ∷ "sha256:one" ∷ []) head_zero)
unfolding verify_key_lineage verify_signature_by_label decode_rotations set event_digest
fork_run = refl

two_passes : assert_rotation_appendable crypto head_one (envelope 2 "revealed") ≡ none
unfolding assert_rotation_appendable next_head genesis verify_signature_by_label
two_passes = refl

two_differs :
    All
      (λ y. str_eq (event_digest crypto y) (event_digest crypto (envelope 2 "revealed")) ≡ false)
      (envelope 1 "revealed" ∷ [])
unfolding event_digest
two_differs = (refl, tt)

two_unlinked :
    candidates
      (rotations_of crypto (envelope 1 "revealed" ∷ envelope 2 "revealed" ∷ []))
      (event_digest crypto (envelope 2 "revealed"))
    ≡ []
unfolding event_digest candidates decode_rotations dedupe set
two_unlinked = refl

guard_keeps_audit_example :
    (v : Event) × (parse (2 ∷ []) ≡ event v)
    × (verify_key_lineage crypto (first ∷ envelope 1 "revealed" ∷ envelope 2 "revealed" ∷ [])
        ≡ some (
            continuous (
              next_head crypto head_one (record {
                envelope = envelope 2 "revealed";
                event = v;
                digest = event_digest crypto (envelope 2 "revealed");
              }))))
guard_keeps_audit_example =
    guard_keeps_audit crypto first (envelope 1 "revealed" ∷ []) (envelope 2 "revealed") head_one
      one_rotation_run two_passes two_differs two_unlinked
