-- ===== src/KeyLifecycle.antt =====
-- hub/key-lifecycle.mjs: the audit of a key's history, a chain of signed inception and rotation
-- events, and the guard before a rotation is stored. What Node gives (SHA-256, the verification of an
-- Ed25519 signature, JSON.parse, base64) is the parameter `Crypto`; an envelope holds its payload as
-- bytes. `none` stands for a member that is absent.
pub mod Audit
pub mod Decoded
pub mod Extended
pub mod Lineage
pub mod Tests
pub mod Guard
use ainumbers_helm.Prelude.{
  ℕ, suc, zero, String, ◌<>◌, Bool, true, false, Option, none, some, List, [], ◌∷◌, ◌++◌, map,
  length, ◌==◌, str_eq, if◌then◌else◌, find, keep,
}
use ainumbers_helm.Prelude.Bytes.{utf8, decimal}
use ainumbers_helm.Prelude.Dict.{Dict, set}

pub record Signature : Type 0 where
  pub label : String
  pub alg : String
  pub sig : String

pub record Envelope : Type 0 where
  pub payload_type : String
  pub payload : List ℕ
  pub signatures : List Signature

pub record Event : Type 0 where
  pub key_event : Option String
  pub identity_seq : Option ℕ
  pub prev_event_digest : Option String
  pub public_key : Option String
  pub revealed_public_key : Option String
  pub next_key_commitment : Option String

-- What JSON.parse makes of a payload.
pub data Parsed : Type 0 where
  unreadable : Parsed
  json_null : Parsed
  event : Event → Parsed

pub record Crypto : Type 0 where
  pub sha256_hex : List ℕ → String
  pub from_base64 : String → List ℕ
  pub parse : List ℕ → Parsed
  pub verify : List ℕ → List ℕ → List ℕ → Bool

pub record Rotation : Type 0 where
  pub envelope : Envelope
  pub event : Event
  pub digest : String

pub data Kind : Type 0 where
  inception rotation : Kind

pub record Link : Type 0 where
  pub kind : Kind
  pub seq : ℕ
  pub digest : String
  pub public_key : Option String

-- The variables of the walk.
pub record Head : Type 0 where
  pub digest : String
  pub commitment : Option String
  pub seq : ℕ
  pub public_key : Option String
  pub trail : List Link

pub data Reason : Type 0 where
  empty_chain undecodable_inception chain_does_not_start_at_inception : Reason
  inception_signature_invalid undecodable_rotation : Reason
  sequence_gap : ℕ → Option ℕ → Reason
  commitment_mismatch revealed_key_signature_invalid : Reason

-- How a call of verifyKeyLineage ends: a verdict that it returns, or `throws`, which is no verdict but
-- the TypeError of a member of null or of Buffer.from(undefined).
pub data Ending : Type 0 where
  invalid : Reason → List Link → Ending
  fork_detected : List String → Head → Ending
  continuous : Head → Ending
  throws : Ending

-- Why `assertRotationAppendable` throws.
pub data Refusal : Type 0 where
  undecodable_candidate not_a_rotation stale_head wrong_seq no_key wrong_key bad_signature : Refusal

abbrev pub opt_str_eq : Option String → String → Bool
opt_str_eq none s = false
opt_str_eq (some t) s = str_eq t s

abbrev pub opt_num_eq : Option ℕ → ℕ → Bool
opt_num_eq none n = false
opt_num_eq (some m) n = m == n

-- The DSSE Pre-Authentication Encoding.
unfoldable pub pae : String → List ℕ → List ℕ
pae payload_type payload =
    utf8 "DSSEv1"
    ++ utf8 " "
    ++ decimal (length (utf8 payload_type))
    ++ utf8 " "
    ++ utf8 payload_type
    ++ utf8 " "
    ++ decimal (length payload)
    ++ utf8 " "
    ++ payload

-- The values of new Map(rotations.map((r) => [r.digest, r])): of two with one digest, the place of
-- the first and the value of the last.
unfoldable pub dedupe : Dict Rotation → List Rotation → Dict Rotation
dedupe d [] = d
dedupe d (r ∷ rs) = dedupe (set d r.digest r) rs

abbrev pub values : Dict Rotation → List Rotation
values d = map (λ (e : String × Rotation). e.1) d

-- byPrevDigest.get(headDigest) ?? []
unfoldable pub candidates : List Rotation → String → List Rotation
candidates rs digest = keep (λ r. opt_str_eq r.event.prev_event_digest digest) rs

module _ (c : Crypto) where
  unfoldable pub commitment_of_b64 : String → String
  commitment_of_b64 key = "sha256:" <> c.sha256_hex (c.from_base64 key)

  unfoldable pub event_digest : Envelope → String
  event_digest e = "sha256:" <> c.sha256_hex e.payload

  -- `none` is a key that is undefined, on which Buffer.from throws inside the try.
  unfoldable pub verify_signature_by_label : Envelope → String → Option String → Bool
  unfolding pae
  verify_signature_by_label e label none = false
  verify_signature_by_label e label (some key) =
      elim (find (λ (s : Signature). str_eq s.label label) e.signatures) [
        | none ↦ false
        | some entry ↦
            c.verify (pae e.payload_type e.payload) (c.from_base64 key) (c.from_base64 entry.sig)
      ]

  -- `none` where some rotation does not decode.
  unfoldable pub decode_rotations : List Envelope → Option (List Rotation)
  decode_rotations [] = some []
  decode_rotations (e ∷ es) =
      let rest = decode_rotations es in
      elim (c.parse e.payload) [
        | event v ↦ elim rest [
          | none ↦ none
          | some rs ↦ some (record { envelope = e; event = v; digest = event_digest e } ∷ rs)
        ]
        | other ↦ none
      ]

  unfoldable pub next_head : Head → Rotation → Head
  next_head h r = record {
    digest = r.digest;
    commitment = r.event.next_key_commitment;
    seq = suc h.seq;
    public_key = r.event.revealed_public_key;
    trail =
        h.trail
        ++ record {
          kind = rotation;
          seq = suc h.seq;
          digest = r.digest;
          public_key = r.event.revealed_public_key;
        }
          ∷ [];
  }

  -- How a round of the walk treats its one candidate; `none` is to go on from the next head.
  unfoldable pub check_rotation : Head → Rotation → Option Ending
  unfolding commitment_of_b64
  check_rotation h r =
      if opt_num_eq r.event.identity_seq (suc h.seq)
      then elim r.event.revealed_public_key [
        | none ↦ some throws
        | some key ↦
            if opt_str_eq h.commitment (commitment_of_b64 key)
            then if verify_signature_by_label r.envelope "revealed" (some key)
              then none
              else some (invalid revealed_key_signature_invalid h.trail)
            else some (invalid commitment_mismatch h.trail)
      ]
      else some (invalid (sequence_gap (suc h.seq) r.event.identity_seq) h.trail)

  -- The endless loop, on fuel; `none` is only that the fuel ran out.
  unfoldable pub walk : ℕ → List Rotation → Head → Option Ending
  unfolding candidates next_head
  walk zero rs h = none
  walk (suc fuel) rs h = elim (candidates rs h.digest) [
    | [] ↦ some (continuous h)
    | r ∷ [] ↦ elim (check_rotation h r) [ some v ↦ some v | none ↦ walk fuel rs (next_head h r) ]
    | r ∷ s ∷ more ↦ some (fork_detected (map (λ (x : Rotation). x.digest) (r ∷ s ∷ more)) h)
  ]

  unfoldable pub genesis : Envelope → Event → Head
  genesis e v = record {
    digest = event_digest e;
    commitment = v.next_key_commitment;
    seq = 0;
    public_key = v.public_key;
    trail =
        record { kind = inception; seq = 0; digest = event_digest e; public_key = v.public_key }
        ∷ [];
  }

  unfoldable pub walk_rotations : Head → Option (List Rotation) → Option Ending
  unfolding dedupe walk
  walk_rotations h none = some (invalid undecodable_rotation [])
  walk_rotations h (some rs) = walk (suc (length (values (dedupe [] rs)))) (values (dedupe [] rs)) h

  unfoldable pub after_inception : Envelope → List Envelope → Parsed → Option Ending
  unfolding genesis walk_rotations
  after_inception e es unreadable = some (invalid undecodable_inception [])
  after_inception e es json_null = some throws
  after_inception e es (event v) =
      if opt_str_eq v.key_event "inception"
      then if opt_num_eq v.identity_seq 0
        then if verify_signature_by_label e "self" v.public_key
          then walk_rotations (genesis e v) (decode_rotations es)
          else some (invalid inception_signature_invalid [])
        else some (invalid chain_does_not_start_at_inception [])
      else some (invalid chain_does_not_start_at_inception [])

  unfoldable pub verify_key_lineage : List Envelope → Option Ending
  unfolding after_inception
  verify_key_lineage [] = some (invalid empty_chain [])
  verify_key_lineage (e ∷ es) = after_inception e es (c.parse e.payload)

  -- `none` where the guard returns.
  guard_event : Head → Envelope → Event → Option Refusal
  unfolding commitment_of_b64
  guard_event h e v =
      if opt_str_eq v.key_event "rotation"
      then if opt_str_eq v.prev_event_digest h.digest
        then if opt_num_eq v.identity_seq (suc h.seq)
          then elim v.revealed_public_key [
            | none ↦ some no_key
            | some key ↦
                if opt_str_eq h.commitment (commitment_of_b64 key)
                then if verify_signature_by_label e "revealed" (some key)
                  then none
                  else some bad_signature
                else some wrong_key
          ]
          else some wrong_seq
        else some stale_head
      else some not_a_rotation

  guard_parsed : Head → Envelope → Parsed → Option Refusal
  unfolding guard_event
  guard_parsed h e unreadable = some undecodable_candidate
  guard_parsed h e json_null = some undecodable_candidate
  guard_parsed h e (event v) = guard_event h e v

  unfoldable pub assert_rotation_appendable : Head → Envelope → Option Refusal
  unfolding guard_parsed
  assert_rotation_appendable h e = guard_parsed h e (c.parse e.payload)
