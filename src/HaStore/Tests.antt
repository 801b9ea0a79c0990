-- ===== src/HaStore/Tests.antt =====
-- Runs of the model of hub/ha-store.mjs.
use ainumbers_helm.Prelude.{String, ◌≡◌, refl, true, none, some, List, [], ◌∷◌}
use ainumbers_helm.Prelude.Dict.{get, set}
use ainumbers_helm.HaStore.{
  Store, Slot, MakerSignature, Countersignature, Validator, init_ha_tables, decide_maker,
  get_or_init_slot, decide_countersignature, is_maker, decide_pin, is_pinned,
  distinct_human_checker_ids, set_maker_signature, add_countersignature, pin_slot_satisfaction,
}
use ainumbers_helm.HaStore.History.{
  Call, set_maker, countersign, pin, run, run-IsSeparated, run-Extends,
}
use ainumbers_helm.HaStore.Slots.{IsSeparated, Extends}

abbrev validator : Validator
validator = record { record_digest = λ r. r.body; validate_shape = λ r. true }

abbrev maker : String → MakerSignature
maker k = record { keyid = k; sig = "s"; alg = "ed25519"; attester_kind = "human" }

abbrev check : String → Countersignature
check who = record {
  role = "checker";
  identity_id = who;
  keyid = who;
  sig = "s";
  signed_at = "t";
  replay_verified = none;
  attester_kind = "human";
}

-- The maker tries to be its own checker, a checker signs, the slot is pinned, a swap is tried.
abbrev calls : List Call
calls =
    set_maker "b" (maker "alice")
    ∷ countersign "b" (check " alice ") none
    ∷ countersign "b" (check "bob") none
    ∷ pin "b" 1 "t1"
    ∷ set_maker "b" (maker "mallory")
    ∷ []

abbrev signed : Slot
signed = record {
  bundle_digest = "b";
  maker_signature = some (maker "alice");
  countersignatures = check "bob" ∷ [];
  threshold = some 1;
  as_of = "t1";
}

signed-run : get (run validator calls init_ha_tables).slots "b" ≡ some signed
unfolding init_ha_tables get set set_maker_signature add_countersignature pin_slot_satisfaction
    decide_maker get_or_init_slot decide_countersignature is_maker decide_pin is_pinned
    distinct_human_checker_ids
signed-run = refl

run-IsSeparated_example : IsSeparated signed
run-IsSeparated_example = run-IsSeparated validator calls "b" signed signed-run

abbrev later : List Call
later = set_maker "b" (maker "mallory") ∷ countersign "b" (check "carol") none ∷ []

abbrev signed_store : Store
signed_store = record { records = []; slots = ("b", signed) ∷ [] }

signed_store_run : get signed_store.slots "b" ≡ some signed
unfolding get
signed_store_run = refl

run-Extends_example :
    (new : Slot) × (get (run validator later signed_store).slots "b" ≡ some new)
    × Extends signed new
run-Extends_example = run-Extends validator later signed_store "b" signed signed_store_run
