-- ===== src/Journal.antt =====
-- hub/journal.mjs: the append-only journal with a running hash for each stream. SHA-256 is the
-- parameter `sha256_hex`, the digest of bytes as hexadecimal text. The `journal` table is the list
-- of its rows in the order of `seq`; `next_seq` is what AUTOINCREMENT gives next.
pub mod Chain
pub mod Append
pub mod Tamper
pub mod FastPath
pub mod Resume
pub mod Tests
use ainumbers_helm.Json.{Json, null, str, arr, obj, Items, nil, cons, Fields, end, field}
use ainumbers_helm.Json.{get_field, spread}
use ainumbers_helm.Canon.{record_canon_v1}
use ainumbers_helm.Prelude.{
  ℕ, suc, String, Bool, true, false, Option, none, some, List, [], ◌∷◌, ◌++◌, ltb, ◌==◌, str_eq,
  if◌then◌else◌, keep,
}
use ainumbers_helm.Prelude.Bytes.{utf8, encode_utf8, from_hex, decimal}
use ainumbers_helm.Prelude.Dict.{Dict, get, set}

pub record Row : Type 0 where
  pub seq : ℕ
  pub stream_id : String
  pub kind : String
  pub run_id : Option String
  pub entry_json : Json
  pub entry_digest : String
  pub rh : String
  pub created_at : String

-- a row of `stream_state`
pub record Head : Type 0 where
  pub seq : ℕ
  pub rh : String

pub record Journal : Type 0 where
  pub rows : List Row
  pub streams : Dict Head
  pub next_seq : ℕ
  pub meta : Dict String

unfoldable pub open_journal : Journal
open_journal = record { rows = []; streams = []; next_seq = 1; meta = [] }

pub data Error : Type 0 where
  missing_field : String → Error
  humans_not_array : Error
  human_malformed : Error

abbrev pub art12_fields : List String
art12_fields =
    "period_start" ∷ "period_end" ∷ "reference_db_version" ∷ "triggering_input_digest"
    ∷ "humans_involved" ∷ []

is_present : Option Json → Bool
is_present none = false
is_present (some v) = true

first_missing : Fields → List String → Option String
unfolding is_present
first_missing entry [] = none
first_missing entry (f ∷ fs) =
    let rest = first_missing entry fs in if is_present (get_field entry f) then rest else some f

is_str : Option Json → Bool
is_str (some (str s)) = true
is_str _ = false

is_human : Json → Bool
unfolding is_str
is_human (obj h) = if is_str (get_field h "id_ref") then is_str (get_field h "role") else false
is_human _ = false

all_humans : Items → Bool
unfolding is_human
all_humans nil = true
all_humans (cons h hs) = let rest = all_humans hs in if is_human h then rest else false

check_humans : Option Json → Option Error
unfolding all_humans
check_humans (some (arr hs)) = if all_humans hs then none else some human_malformed
check_humans _ = some humans_not_array

-- `none` where the code does not throw.
unfoldable pub assert_art12 : Fields → Option Error
unfolding first_missing check_humans
assert_art12 entry = elim (first_missing entry art12_fields) [
  | some f ↦ some (missing_field f)
  | none ↦ check_humans (get_field entry "humans_involved")
]

pub record Request : Type 0 where
  pub stream_id : String
  pub kind : String
  pub run_id : Option String
  pub entry : Fields

pub record Appended : Type 0 where
  pub seq : ℕ
  pub rh : String
  pub entry_digest : String

pub data Outcome {ℓ} (A : Type ℓ) : Type ℓ where
  done : A → Outcome A
  thrown : Error → Outcome A

run_id_json : Option String → Json
run_id_json none = null
run_id_json (some r) = str r

-- { kind, run_id: runId, ...entry }
unfoldable pub full_entry : Request → Json
unfolding run_id_json
full_entry q =
    obj (spread (field "kind" (str q.kind) (field "run_id" (run_id_json q.run_id) end)) q.entry)

-- UPDATE journal SET rh = ? WHERE seq = ?
unfoldable pub update_rh : ℕ → String → List Row → List Row
update_rh n rh [] = []
update_rh n rh (r ∷ rs) =
    let rest = update_rh n rh rs in (if r.seq == n then record r { rh = rh } else r) ∷ rest

pub data Verdict : Type 0 where
  ok : Verdict
  broken : ℕ → String → String → String → Verdict

-- one member of a checkpoint's `streams`
pub record Claimed : Type 0 where
  pub stream_id : String
  pub journal_seq : ℕ
  pub rh : String

min_seq : ℕ → List Claimed → ℕ
min_seq m [] = m
min_seq m (c ∷ cs) = min_seq (if ltb c.journal_seq m then c.journal_seq else m) cs

-- Math.min(...seqs), or 0 with no stream
unfoldable pub floor_seq : List Claimed → ℕ
unfolding min_seq
floor_seq [] = 0
floor_seq (c ∷ cs) = min_seq c.journal_seq cs

-- new Map(checkpointStreams.map((s) => [s.stream_id, s.rh]))
unfoldable pub claimed_heads : Dict String → List Claimed → Dict String
claimed_heads d [] = d
claimed_heads d (c ∷ cs) = claimed_heads (set d c.stream_id c.rh) cs

module _ (sha256_hex : List ℕ → String) where
  unfoldable pub stream_seed : String → String
  stream_seed stream_id = sha256_hex (utf8 stream_id)

  -- SHA-256(rh_prev || stream_id || seq || entry_digest)
  unfoldable pub link : String → String → ℕ → String → String
  link prev stream_id seq entry_digest =
      sha256_hex (from_hex prev ++ utf8 stream_id ++ decimal seq ++ from_hex entry_digest)

  -- sha256Hex(jcsBytes(obj)), of a value that the vendored assertIJson accepts; it throws on another
  unfoldable pub record_digest : Json → String
  record_digest v = sha256_hex (encode_utf8 (record_canon_v1 v))

  unfoldable pub rh_or_seed : Option String → String → String
  unfolding stream_seed
  rh_or_seed none stream_id = stream_seed stream_id
  rh_or_seed (some rh) stream_id = rh

  unfoldable pub head_rh : Option Head → String → String
  unfolding stream_seed
  head_rh none stream_id = stream_seed stream_id
  head_rh (some h) stream_id = h.rh

  -- The transaction of `appendEntry`: a row with an empty `rh`, whose `seq` the hash then binds.
  unfoldable pub insert_row : String → Request → Journal → Journal × Appended
  unfolding head_rh update_rh
  insert_row now q j =
      let entry_digest = record_digest (full_entry q) in
      let rh_prev = head_rh (get j.streams q.stream_id) q.stream_id in
      let seq = j.next_seq in
      let placeholder : Row = record {
        seq = seq;
        stream_id = q.stream_id;
        kind = q.kind;
        run_id = q.run_id;
        entry_json = full_entry q;
        entry_digest = entry_digest;
        rh = "";
        created_at = now;
      } in
      let rh = link rh_prev q.stream_id seq entry_digest in
      (
        record j {
          rows = update_rh seq rh (j.rows ++ placeholder ∷ []);
          streams = set j.streams q.stream_id (record { seq = seq; rh = rh });
          next_seq = suc seq;
        },
        record { seq = seq; rh = rh; entry_digest = entry_digest },
      )

  unfoldable pub append_entry : String → Request → Journal → Outcome (Journal × Appended)
  unfolding insert_row assert_art12
  append_entry now q j = elim (assert_art12 q.entry) [
    | some e ↦ thrown e
    | none ↦ done (insert_row now q j)
  ]

  unfoldable pub stream_head : Journal → String → Option ℕ × String
  unfolding stream_seed
  stream_head j stream_id = elim (get j.streams stream_id) [
    | none ↦ (none, stream_seed stream_id)
    | some h ↦ (some h.seq, h.rh)
  ]

  -- The loop of `replayVerify`, with the map of running hashes.
  unfoldable pub replay_loop : Dict String → List Row → Verdict
  replay_loop heads [] = ok
  replay_loop heads (r ∷ rs) =
      let prev = rh_or_seed (get heads r.stream_id) r.stream_id in
      let expected = link prev r.stream_id r.seq r.entry_digest in
      let rest = replay_loop (set heads r.stream_id expected) rs in
      if str_eq expected r.rh then rest else broken r.seq r.stream_id expected r.rh

  unfoldable pub replay_verify : Journal → Verdict
  unfolding replay_loop
  replay_verify j = replay_loop [] j.rows

  unfoldable pub replay_verify_from : Journal → List Claimed → Verdict
  unfolding replay_loop floor_seq claimed_heads
  replay_verify_from j cs =
      replay_loop (claimed_heads [] cs) (keep (λ r. ltb (floor_seq cs) r.seq) j.rows)

-- recordFullVerification, lastFullVerifiedAt
unfoldable pub record_full_verification : String → Journal → Journal
record_full_verification now j = record j { meta = set j.meta "last_full_verified_at" now }

unfoldable pub last_full_verified_at : Journal → Option String
last_full_verified_at j = get j.meta "last_full_verified_at"
