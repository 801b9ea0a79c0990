-- ===== src/Checkpoint.antt =====
-- hub/checkpoint.mjs: signed summaries of the heads of the journal's streams. A statement is read
-- back from its payload by the parameter `read`, as JSON.parse does; anchors are kept as they are.
pub mod Live
pub mod Verified
pub mod Tests
use ainumbers_helm.Json.{Json, str, num, arr, obj, Items, nil, cons, end, field}
use ainumbers_helm.Canon.{record_canon_v1}
use ainumbers_helm.Envelope.{
  in_toto_statement_type, helm_predicate_type, DsseEnvelope, Signing, Verification, Keys,
  PublicKeys, emit_envelope, verify_envelope,
}
use ainumbers_helm.Journal.{Head, Journal, Claimed, record_digest}
use ainumbers_helm.Prelude.{
  ℕ, String, Bool, true, false, ◌&&◌, Option, none, some, List, [], ◌∷◌, ltb, ◌==◌, str_eq,
  if◌then◌else◌,
}
use ainumbers_helm.Prelude.Bytes.{utf8, encode_utf8}
use ainumbers_helm.Prelude.Dict.{Dict, get, set}

unfoldable pub bytes_lt : List ℕ → List ℕ → Bool
bytes_lt _ [] = false
bytes_lt [] (d ∷ ds) = true
bytes_lt (c ∷ cs) (d ∷ ds) =
    let rest = bytes_lt cs ds in if ltb c d then true else if c == d then rest else false

unfoldable pub insert_head : Claimed → List Claimed → List Claimed
unfolding bytes_lt
insert_head c [] = c ∷ []
insert_head c (d ∷ ds) =
    let rest = insert_head c ds in
    if bytes_lt (utf8 d.stream_id) (utf8 c.stream_id) then d ∷ rest else c ∷ d ∷ ds

unfoldable pub claim_of : String × Head → Claimed
claim_of (stream_id, h) = record { stream_id = stream_id; journal_seq = h.seq; rh = h.rh }

-- The rows of `stream_state`, ORDER BY stream_id.
unfoldable pub order_heads : Dict Head → List Claimed
unfolding insert_head claim_of
order_heads [] = []
order_heads (row ∷ rows) = insert_head (claim_of row) (order_heads rows)

unfoldable pub stream_heads : Journal → List Claimed
unfolding order_heads
stream_heads j = order_heads j.streams

claims_json : List Claimed → Items
claims_json [] = nil
claims_json (c ∷ cs) =
    cons
      (obj (
        field "stream_id" (str c.stream_id)
          (field "journal_seq" (num c.journal_seq) (field "rh" (str c.rh) end))))
      (claims_json cs)

anchor_items : List Json → Items
anchor_items [] = nil
anchor_items (a ∷ as') = cons a (anchor_items as')

pub record Predicate : Type 0 where
  pub checkpoint_seq : ℕ
  pub streams : List Claimed
  pub journal_root_digest : String
  pub anchors : List Json

-- buildStatement, for the subject and the predicate of a checkpoint
unfoldable pub statement_json : Predicate → Json
unfolding claims_json anchor_items
statement_json p = obj (
    field "_type" (str in_toto_statement_type) (
      field "subject"
        (arr (
          cons
            (obj (
              field "name" (str "journal_root")
                (field "digest" (obj (field "sha256" (str p.journal_root_digest) end)) end)))
            nil))
        (field "predicateType" (str (helm_predicate_type "checkpoint")) (
          field "predicate"
            (obj (
              field "checkpoint_seq" (num p.checkpoint_seq) (
                field "streams" (arr (claims_json p.streams)) (
                  field "journal_root_digest" (str p.journal_root_digest)
                    (field "anchors" (arr (anchor_items p.anchors)) end)))))
            end))))

-- Buffer.from(recordCanonV1(statement), "utf8")
unfoldable pub statement_bytes : Predicate → List ℕ
unfolding statement_json
statement_bytes p = encode_utf8 (record_canon_v1 (statement_json p))

pub record Checkpoint : Type 0 where
  pub checkpoint_seq : ℕ
  pub journal_root_digest : String
  pub envelope : DsseEnvelope

-- `table` is the table `checkpoints`; a second row with one checkpoint_seq throws, which is none.
has_seq : ℕ → List Checkpoint → Bool
has_seq n [] = false
has_seq n (c ∷ cs) = let rest = has_seq n cs in if c.checkpoint_seq == n then true else rest

unfoldable pub save_checkpoint : Checkpoint → List Checkpoint → Option (List Checkpoint)
unfolding has_seq
save_checkpoint c table = if has_seq c.checkpoint_seq table then none else some (c ∷ table)

insert_checkpoint : Checkpoint → List Checkpoint → List Checkpoint
insert_checkpoint c [] = c ∷ []
insert_checkpoint c (d ∷ ds) =
    let rest = insert_checkpoint c ds in
    if ltb d.checkpoint_seq c.checkpoint_seq then d ∷ rest else c ∷ d ∷ ds

-- ORDER BY checkpoint_seq ASC
unfoldable pub load_checkpoints : List Checkpoint → List Checkpoint
unfolding insert_checkpoint
load_checkpoints [] = []
load_checkpoints (c ∷ cs) = insert_checkpoint c (load_checkpoints cs)

later : Checkpoint → Option Checkpoint → Checkpoint
later c none = c
later c (some d) = if ltb c.checkpoint_seq d.checkpoint_seq then d else c

-- ORDER BY checkpoint_seq DESC LIMIT 1
unfoldable pub latest_checkpoint : List Checkpoint → Option Checkpoint
unfolding later
latest_checkpoint [] = none
latest_checkpoint (c ∷ cs) = some (later c (latest_checkpoint cs))

-- What the verifying functions return; `head_mismatch` names the stream.
pub data Verdict : Type 0 where
  verified : Predicate → Verdict
  envelope_invalid : Verdict
  root_digest_mismatch : Verdict
  head_mismatch : String → Verdict

-- new Map(streamHeads(db).map((s) => [s.stream_id, s]))
unfoldable pub live_map : Dict Claimed → List Claimed → Dict Claimed
live_map d [] = d
live_map d (c ∷ cs) = live_map (set d c.stream_id c) cs

unfoldable pub same_head : Option Claimed → Claimed → Bool
same_head none claimed = false
same_head (some current) claimed =
    current.journal_seq == claimed.journal_seq && str_eq current.rh claimed.rh

-- The first claimed stream whose head is not the live one.
unfoldable pub first_mismatch : Dict Claimed → List Claimed → Option String
first_mismatch live [] = none
first_mismatch live (c ∷ cs) =
    let rest = first_mismatch live cs in
    if same_head (get live c.stream_id) c then rest else some c.stream_id

module _ (sha256_hex : List ℕ → String) (g : Signing) where
  unfoldable pub root_digest : List Claimed → String
  unfolding claims_json
  root_digest streams = record_digest sha256_hex (arr (claims_json streams))

  unfoldable pub predicate_of : Journal → ℕ → List Json → Predicate
  predicate_of j checkpoint_seq anchors = record {
    checkpoint_seq = checkpoint_seq;
    streams = stream_heads j;
    journal_root_digest = root_digest (stream_heads j);
    anchors = anchors;
  }

  unfoldable pub build_checkpoint : Journal → ℕ → Keys g → List Json → Checkpoint
  unfolding predicate_of
  build_checkpoint j checkpoint_seq keys anchors = record {
    checkpoint_seq = checkpoint_seq;
    journal_root_digest = root_digest (stream_heads j);
    envelope = emit_envelope g (statement_bytes (predicate_of j checkpoint_seq anchors)) keys;
  }

  -- `before` and `after` are the journal before and after the relay was waited for, and `anchor`
  -- is the relay's entry for a digest.
  unfoldable pub build_anchored_checkpoint :
      (before after : Journal) → ℕ → Keys g → (String → Json) → Checkpoint
  unfolding build_checkpoint
  build_anchored_checkpoint before after checkpoint_seq keys anchor =
      build_checkpoint after checkpoint_seq keys
        (anchor (build_checkpoint before checkpoint_seq keys []).journal_root_digest ∷ [])

  module _ (read : List ℕ → Option Predicate) where
    unfoldable pub check_predicate : Option Predicate → Verdict
    check_predicate none = envelope_invalid
    check_predicate (some p) =
        if str_eq (root_digest p.streams) p.journal_root_digest
        then verified p
        else root_digest_mismatch

    unfoldable pub verify_self_consistency : Checkpoint → PublicKeys g → Verdict
    unfolding check_predicate
    verify_self_consistency ck keys =
        let result = verify_envelope g read false ck.envelope keys in
        if result.valid then check_predicate result.statement else envelope_invalid

    unfoldable pub against_live : Journal → Verdict → Verdict
    against_live j (verified p) = elim (first_mismatch (live_map [] (stream_heads j)) p.streams) [
      | none ↦ verified p
      | some s ↦ head_mismatch s
    ]
    against_live j envelope_invalid = envelope_invalid
    against_live j root_digest_mismatch = root_digest_mismatch
    against_live j (head_mismatch s) = head_mismatch s

    unfoldable pub verify_checkpoint : Journal → Checkpoint → PublicKeys g → Verdict
    unfolding against_live
    verify_checkpoint j ck keys = against_live j (verify_self_consistency ck keys)
