-- ===== src/Journal/Tests.antt =====
-- Runs of the model of hub/journal.mjs on a small journal of two streams. The hash of the tests is
-- a checksum of four values.
use ainumbers_helm.Json.{get_field, str, arr, nil, Fields, end, field, null}
use ainumbers_helm.Prelude.{
  ℕ, ◌+◌, ◌%◌, String, ◌≡◌, ◌≢◌, ◌↔◌, refl, true, false, ap, sym, ◌∙◌, none, some, List, [], ◌∷◌,
  map, str_eq, ◌==◌, if◌then◌else◌, arith,
}
use ainumbers_helm.Prelude.Bytes.{from_hex, utf8, decimal}
use ainumbers_helm.Prelude.Dict.{get, set}
use ainumbers_helm.Journal.{
  Row, Journal, Claimed, Request, ok, broken, append_entry, rh_or_seed, link, stream_seed,
  open_journal, replay_verify, replay_verify_from, floor_seq, claimed_heads,
}
use ainumbers_helm.Journal.Append.{append_all, append_all_verifies, Increasing, last_head, rh_of}
use ainumbers_helm.Journal.Chain.{
  IsChained, of_stream, replay_verify_iff, FirstBroken, replay_verify-FirstBroken,
}
use ainumbers_helm.Journal.FastPath.{fast_path_false_alarm}
use ainumbers_helm.Journal.Tamper.{replay_ignores_entries}

abbrev sum : List ℕ → ℕ
sum [] = 0
sum (n ∷ ns) = n + sum ns

abbrev checksum : List ℕ → String
checksum bs =
    let n = sum bs % 4 in
    if n == 0 then "00" else if n == 1 then "01" else if n == 2 then "02" else "03"

abbrev entry : Fields
entry = field "period_start" (str "t0") (
    field "period_end" (str "t1") (
      field "reference_db_version" (str "helm@1")
        (field "triggering_input_digest" (str "d") (field "humans_involved" (arr nil) end))))

abbrev request : String → Request
request s = record { stream_id = s; kind = "note"; run_id = none; entry = entry }

abbrev requests : List (String × Request)
requests =
    ("now", request "a")
    ∷ ("now", record { stream_id = "a"; kind = "note"; run_id = none; entry = end })
    ∷ ("now", request "b")
    ∷ ("now", request "a")
    ∷ []

append_all_verifies_example :
    let j = append_all checksum requests open_journal in
    (replay_verify checksum j ≡ ok)
    × Increasing j.rows
    × ((s : String) → get j.streams s ≡ last_head none (of_stream s j.rows))
append_all_verifies_example = append_all_verifies checksum requests

-- The request without the Art. 12 fields is refused.
rows_run :
    map (λ (r : Row). r.seq) (append_all checksum requests open_journal).rows ≡ 1 ∷ 2 ∷ 3 ∷ []
unfolding open_journal append_entry get_field
rows_run = refl

abbrev row : String → ℕ → String → String → Row
row s n prev d = record {
  seq = n;
  stream_id = s;
  kind = "note";
  run_id = none;
  entry_json = null;
  entry_digest = d;
  rh = link checksum prev s n d;
  created_at = "now";
}

abbrev journal_of : List Row → Journal
journal_of rows = record { rows = rows; streams = []; next_seq = 4; meta = [] }

abbrev first_a : Row
first_a = row "a" 1 (stream_seed checksum "a") "0102"

abbrev first_b : Row
first_b = row "b" 2 (stream_seed checksum "b") "05"

abbrev second_a : Row
second_a = row "a" 3 first_a.rh "01"

abbrev rows : List Row
rows = first_a ∷ first_b ∷ second_a ∷ []

rows-ok : replay_verify checksum (journal_of rows) ≡ ok
unfolding replay_verify link stream_seed from_hex rh_or_seed get utf8 decimal set
rows-ok = refl

replay_verify_iff_example :
    (replay_verify checksum (journal_of rows) ≡ ok) ↔ IsChained checksum rows
replay_verify_iff_example = replay_verify_iff checksum (journal_of rows)

abbrev cut : List Row
cut = first_a ∷ record first_b { rh = "ff" } ∷ second_a ∷ []

cut_run : replay_verify checksum (journal_of cut) ≡ broken 2 "b" "03" "ff"
unfolding replay_verify link stream_seed from_hex rh_or_seed get utf8 decimal set
cut_run = refl

cut-broken : replay_verify checksum (journal_of cut) ≢ ok
cut-broken e = let k : broken 2 "b" "03" "ff" ≡ ok = sym cut_run ∙ e in cc

replay_verify-FirstBroken_example :
    FirstBroken checksum [] cut (replay_verify checksum (journal_of cut))
replay_verify-FirstBroken_example = replay_verify-FirstBroken checksum (journal_of cut) cut-broken

replay_ignores_entries_example :
    replay_verify checksum (journal_of rows)
    ≡ replay_verify checksum
        (journal_of (record first_a { entry_json = str "edited" } ∷ first_b ∷ second_a ∷ []))
replay_ignores_entries_example =
    replay_ignores_entries checksum (journal_of rows)
      (journal_of (record first_a { entry_json = str "edited" } ∷ first_b ∷ second_a ∷ [])) refl

-- The heads of both streams, as a checkpoint after the third row has them.
abbrev both_heads : List Claimed
both_heads =
    record { stream_id = "a"; journal_seq = 3; rh = second_a.rh }
    ∷ record { stream_id = "b"; journal_seq = 2; rh = first_b.rh }
    ∷ []

after_head_run : link checksum second_a.rh "a" 3 "01" ≡ "00"
unfolding link stream_seed from_hex utf8 decimal
after_head_run = refl

after_row_run :
    link checksum
      (rh_of checksum (last_head none (of_stream "a" (first_a ∷ first_b ∷ []))) "a")
      "a"
      3
      "01"
    ≡ "03"
unfolding link stream_seed from_hex utf8 decimal
after_row_run = refl

heads_differ :
    link checksum second_a.rh "a" 3 "01"
    ≢ link checksum
        (rh_of checksum (last_head none (of_stream "a" (first_a ∷ first_b ∷ []))) "a")
        "a"
        3
        "01"
heads_differ e =
    let same : "00" ≡ "03" = sym after_head_run ∙ (e ∙ after_row_run) in
    let k : true ≡ false = ap (λ s. str_eq "00" s) same in cc

claimed_a : get (claimed_heads [] both_heads) "a" ≡ some second_a.rh
unfolding claimed_heads get set link stream_seed
claimed_a = refl

two_streams_floor : floor_seq both_heads ≡ 2
unfolding floor_seq
two_streams_floor = refl

fast_path_false_alarm_example : replay_verify_from checksum (journal_of rows) both_heads ≢ ok
fast_path_false_alarm_example =
    fast_path_false_alarm checksum (journal_of rows) both_heads (first_a ∷ first_b ∷ []) [] second_a
      second_a.rh rows-ok refl (rw two_streams_floor (omega arith))
      (rw two_streams_floor (omega arith)) claimed_a heads_differ

abbrev one_head : List Claimed
one_head = record { stream_id = "a"; journal_seq = 1; rh = first_a.rh } ∷ []
