-- ===== src/Checkpoint/Tests.antt =====
-- Runs of the model of hub/checkpoint.mjs with the toy signatures and a constant hash.
use ainumbers_helm.Checkpoint.{
  Predicate, Checkpoint, verified, build_checkpoint, predicate_of, statement_bytes,
  verify_checkpoint, root_digest,
}
use ainumbers_helm.Checkpoint.Live.{IsLive, IsKeyed, append_all-IsKeyed}
use ainumbers_helm.Checkpoint.Verified.{verify_checkpoint-build, verify_checkpoint-Meaning}
use ainumbers_helm.Envelope.{pre_authentication, check_ed25519, has_alg}
use ainumbers_helm.Envelope.Verified.{public_keys_of}
use ainumbers_helm.Envelope.Tests.{toy, toy_keys, toy-Verifies}
use ainumbers_helm.Json.{str, arr, nil, Fields, end, field}
use ainumbers_helm.Journal.{Journal, Request, open_journal}
use ainumbers_helm.Journal.Append.{append_all}
use ainumbers_helm.Canon.{record_canon_v1}
use ainumbers_helm.Prelude.Bytes.{encode_utf8}
use ainumbers_helm.Prelude.{
  ℕ, String, Option, none, some, List, [], ◌∷◌, find, All, true, ◌≡◌, refl,
}

abbrev constant : List ℕ → String
constant bs = "00"

abbrev entry : Fields
entry = field "period_start" (str "t0") (
    field "period_end" (str "t1") (
      field "reference_db_version" (str "helm@1")
        (field "triggering_input_digest" (str "d") (field "humans_involved" (arr nil) end))))

abbrev request : String → Request
request s = record { stream_id = s; kind = "note"; run_id = none; entry = entry }

abbrev requests : List (String × Request)
requests = ("now", request "b") ∷ ("now", request "a") ∷ ("now", request "b") ∷ []

abbrev journal : Journal
journal = append_all constant requests open_journal

abbrev signed : Predicate
signed = predicate_of constant toy journal 1 []

abbrev read : List ℕ → Option Predicate
read [] = none
read (c ∷ cs) = some signed

read_back : read (statement_bytes signed) ≡ some signed
unfolding statement_bytes predicate_of encode_utf8 record_canon_v1
read_back = refl

verify_checkpoint-build_example :
    verify_checkpoint constant toy read journal
      (build_checkpoint constant toy journal 1 toy_keys [])
      (public_keys_of toy toy_keys)
    ≡ verified signed
verify_checkpoint-build_example =
    verify_checkpoint-build constant toy read requests 1 toy_keys [] toy-Verifies read_back

abbrev checkpoint : Checkpoint
checkpoint = build_checkpoint constant toy journal 1 toy_keys []

open-IsKeyed : IsKeyed open_journal.streams
unfolding open_journal
open-IsKeyed = tt

keyed : IsKeyed journal.streams
keyed = append_all-IsKeyed constant requests open_journal open-IsKeyed

verify_checkpoint-Meaning_example :
    let m = pre_authentication checkpoint.envelope.payload_type checkpoint.envelope.payload in
    (check_ed25519 toy m
        (public_keys_of toy toy_keys)
        (find (has_alg "EdDSA") checkpoint.envelope.signatures)
      ≡ true)
    × (read checkpoint.envelope.payload ≡ some signed)
    × (root_digest constant toy signed.streams ≡ signed.journal_root_digest)
    × All (IsLive journal.streams) signed.streams
verify_checkpoint-Meaning_example =
    verify_checkpoint-Meaning constant toy read journal checkpoint (public_keys_of toy toy_keys)
      signed keyed verify_checkpoint-build_example
