-- ===== src/Matter/Tests.antt =====
-- Runs of the model of hub/matter-store.mjs with a constant hash and a schema that accepts all.
use ainumbers_helm.Envelope.Tests.{toy, toy_keys}
use ainumbers_helm.HaStore.{Stored}
use ainumbers_helm.Json.{Json, str, obj, end, field}
use ainumbers_helm.Matter.Calls.{create, update, remove, register, run}
use ainumbers_helm.Matter.Closed.{Describes}
use ainumbers_helm.Matter.Closing.{close_matter-Exported}
use ainumbers_helm.Matter.EBundle.{e_bundle_objects}
use ainumbers_helm.Matter.Export.{
  MatterExport, Archive, closed, was_closed, close_matter, get_matter_export,
}
use ainumbers_helm.Matter.Kept.{Removes, Continues, done_deadlines_kept}
use ainumbers_helm.Matter.Offsets.{AllStand, StandsAt, build_pdf-AllStand}
use ainumbers_helm.Matter.Pdf.{object_text, write_objects, pdf_header, pdf_trailer, build_pdf}
use ainumbers_helm.Matter.Sound.{IsSound, matters-IsSound}
use ainumbers_helm.Matter.Store.{
  Deadline, Binding, Matter, MatterRow, Tables, Input, Patch, done, update_matter, get_matter,
  merge_draft, create_draft, seal, write_update, row_of, update_existing, lost_deadline,
  is_still_done, register_evidence_bundle, create_matter, checked, insert_matter,
  unresolved_bindings, unresolved_from, binding_errors, resolves, is_some,
}
use ainumbers_helm.Prelude.{
  ℕ, String, true, false, none, some, List, [], ◌∷◌, length, All, ◌≡◌, refl,
}
use ainumbers_helm.Prelude.Bytes.{codes, decimal}
use ainumbers_helm.Prelude.Dict.{get, set}

abbrev constant : List ℕ → String
constant bs = "00"

abbrev accept : Matter → List String
accept m = []

abbrev record_json : Stored → Json
record_json r = str r.record_id

abbrev empty : Tables
empty = record { runs = []; step_results = []; ha_records = []; matters = []; registry = [] }

abbrev filed : Deadline
filed = record {
  date = "2026-01-02";
  action = "file";
  kind = "filing";
  source = "rule 4";
  done = true;
  done_at = none;
}

abbrev bundle : Binding
bundle = record { subject_hash = "sha256:aa"; subject_kind = "evidence_bundle"; note = none }

abbrev letter : Binding
letter = record { subject_hash = "sha256:bb"; subject_kind = "external_reference"; note = none }

abbrev opened : Input
opened = record {
  status = none;
  entity = obj (field "id" (str "did:key:z") end);
  parties = none;
  deadlines = some (filed ∷ []);
  bindings = some (bundle ∷ letter ∷ []);
  narrative = none;
}

abbrev nothing : Patch
nothing = record {
  status = none;
  entity = none;
  parties = none;
  deadlines = none;
  bindings = none;
  narrative = none;
}

abbrev before : Tables
before = run constant accept (register "t0" "sha256:aa" none ∷ create "t1" "M" opened ∷ []) empty

abbrev drop_deadlines : Patch
drop_deadlines = record nothing { deadlines = some [] }

-- A binding to a bundle that is not registered is refused, and so is an update that drops the done
-- deadline.
matters-IsSound_example : IsSound constant accept (
    run constant accept
      (create "t0" "L" opened
        ∷ register "t0" "sha256:aa" none
        ∷ create "t1" "M" opened
        ∷ update "t2" "M" drop_deadlines
        ∷ remove "L"
        ∷ [])
      empty)
matters-IsSound_example =
    matters-IsSound constant accept
      (create "t0" "L" opened
        ∷ register "t0" "sha256:aa" none
        ∷ create "t1" "M" opened
        ∷ update "t2" "M" drop_deadlines
        ∷ remove "L"
        ∷ [])
      empty refl

abbrev matter : Matter
matter = seal constant accept (create_draft "t1" "M" opened)

before_run : get before.matters "M" ≡ some (row_of matter)
unfolding get set register_evidence_bundle create_matter checked insert_matter unresolved_bindings
    unresolved_from binding_errors resolves is_some seal create_draft row_of
before_run = refl

kept_run : All (λ c. Removes "M" c → ⊥) (update "t2" "M" drop_deadlines ∷ remove "L" ∷ [])
kept_run = (λ h. h, (λ h. cc, tt))

done_deadlines_kept_example :
    (r' : MatterRow) × (get
        (run constant accept (update "t2" "M" drop_deadlines ∷ remove "L" ∷ []) before).matters
        "M"
      ≡ some r')
    × Continues (row_of matter).manifest.draft r'.manifest.draft
done_deadlines_kept_example =
    done_deadlines_kept constant accept (update "t2" "M" drop_deadlines ∷ remove "L" ∷ []) before
      "M" (row_of matter) before_run kept_run

abbrev close : Patch
close = record nothing { status = some "closed" }

abbrev closing : Matter
closing = seal constant accept (merge_draft "t3" matter.draft close)

abbrev archive : Archive record_json constant accept toy
archive = record { tables = before; exports = [] }

accepted_run :
    update_matter constant accept "t3" "M" close before
    ≡ done (write_update constant accept "M" closing before, closing)
unfolding update_matter update_existing get_matter lost_deadline is_still_done merge_draft
    write_update get set register_evidence_bundle create_matter checked insert_matter
    unresolved_bindings unresolved_from binding_errors resolves is_some seal create_draft row_of
accepted_run = refl

no_empty_id_run : get (write_update constant accept "M" closing before).runs "" ≡ none
unfolding update_matter update_existing get_matter lost_deadline is_still_done merge_draft
    write_update get set register_evidence_bundle create_matter checked insert_matter
    unresolved_bindings unresolved_from binding_errors resolves is_some seal create_draft row_of
no_empty_id_run = refl

closed_run : closing.draft.status ≡ "closed"
unfolding seal merge_draft
closed_run = refl

open_run :
    was_closed record_json constant accept toy (get_matter constant accept before "M") ≡ false
unfolding was_closed get_matter get set register_evidence_bundle create_matter checked insert_matter
    unresolved_bindings unresolved_from binding_errors resolves is_some seal create_draft row_of
open_run = refl

close_matter-Exported_example :
    let out = close_matter record_json constant accept toy "t3" "M" close (some toy_keys) archive in
    (x : MatterExport) × (out.1 ≡ closed closing (some x))
    × (get_matter_export record_json constant accept toy out.0 "M" ≡ some x)
    × (x.manifest ≡ closing)
    × Describes record_json
        (write_update constant accept "M" closing before)
        closing.draft.bindings
        x.predicate.bindings_export
close_matter-Exported_example =
    close_matter-Exported constant accept record_json toy "t3" "M" close toy_keys archive
      (write_update constant accept "M" closing before) closing
      (matters-IsSound constant accept
        (register "t0" "sha256:aa" none ∷ create "t1" "M" opened ∷ []) empty refl)
      no_empty_id_run accepted_run closed_run open_run

build_pdf-AllStand_example :
    let written = write_objects 1 pdf_header (codes "<< >>" ∷ codes "[1]" ∷ []) in
    AllStand
      (build_pdf (codes "<< >>" ∷ codes "[1]" ∷ []) 1)
      1
      (codes "<< >>" ∷ codes "[1]" ∷ [])
      written.1
    × StandsAt
        (build_pdf (codes "<< >>" ∷ codes "[1]" ∷ []) 1)
        (length written.0)
        (pdf_trailer 3 1 (length written.0) written.1)
build_pdf-AllStand_example = build_pdf-AllStand (codes "<< >>" ∷ codes "[1]" ∷ []) 1

offsets_run : (write_objects 1 pdf_header (codes "<< >>" ∷ codes "[1]" ∷ [])).1 ≡ 15 ∷ 36 ∷ []
unfolding write_objects pdf_header object_text decimal
offsets_run = refl

-- The catalog, the pages and the font, one page with its content, one outline item and the root.
objects_run : length (e_bundle_objects matter.draft []) ≡ 7
unfolding e_bundle_objects
objects_run = refl
