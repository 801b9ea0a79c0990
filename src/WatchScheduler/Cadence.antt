-- ===== src/WatchScheduler/Cadence.antt =====
-- hub/watch-scheduler.mjs: the cadence of a watch and the checks of the request that creates one.
use ainumbers_helm.HaGate.Check.{member_text, member_json}
use ainumbers_helm.Json.{Json, str, num, arr, Items, nil, cons}
use ainumbers_helm.Prelude.{
  ℕ, suc, ◌*◌, String, Bool, true, false, Option, none, some, List, [], ◌∷◌, ◌++◌, str_eq,
  if◌then◌else◌, any, ◌||◌,
}
use text.Mathlib.Text.{starts_with}

-- A number of JavaScript: a count, or NaN.
pub data Interval : Type 0 where
  ms : ℕ → Interval
  not_a_number : Interval

-- CADENCE_UNITS_MS[unit], with the members that every object inherits, which are no numbers.
pub data UnitMs : Type 0 where
  unit_of : ℕ → UnitMs
  inherited undefined : UnitMs

unfoldable pub inherited_names : List String
inherited_names =
    "constructor" ∷ "toString" ∷ "toLocaleString" ∷ "valueOf" ∷ "hasOwnProperty" ∷ "isPrototypeOf"
    ∷ "propertyIsEnumerable" ∷ "__proto__" ∷ "__defineGetter__" ∷ "__defineSetter__"
    ∷ "__lookupGetter__" ∷ "__lookupSetter__" ∷ []

unfoldable pub cadence_unit : String → UnitMs
unfolding inherited_names
cadence_unit unit =
    if str_eq unit "hours"
    then unit_of 3600000
    else if str_eq unit "days"
    then unit_of 86400000
    else if str_eq unit "weeks"
    then unit_of 604800000
    else if any (λ name. str_eq name unit) inherited_names
    then inherited
    else undefined

unfoldable pub times : UnitMs → ℕ → Option Interval
times (unit_of n) (suc k) = some (ms (n * suc k))
times inherited (suc k) = some not_a_number
times _ _ = none

-- cadenceIntervalMs; none where it throws
unfoldable pub cadence_interval_ms : String → ℕ → Option Interval
unfolding cadence_unit times
cadence_interval_ms unit interval = times (cadence_unit unit) interval

pub data WatchError : Type 0 where
  pack_id_required pack_digest_required invalid_cadence connector_fed_unbuilt invalid_mode :
      WatchError
  alert_on_empty evidences_empty created_by_required consent_required : WatchError
  bad_alert : Json → WatchError
  framework_required control_id_required : ℕ → WatchError

abbrev pub unless : Bool → WatchError → List WatchError
unless true e = []
unless false e = e ∷ []

is_there : Option String → Bool
is_there none = false
is_there (some s) = true

is_digest_ref : Option String → Bool
is_digest_ref none = false
is_digest_ref (some s) = starts_with s "sha256:"

number_in : Option Json → Option ℕ
number_in (some (num n)) = some n
number_in _ = none

-- cadenceIntervalMs of what the request holds
unfoldable pub requested_interval : Option Json → Option Interval
unfolding number_in member_text member_json
requested_interval cadence = elim (member_text cadence "unit") [
  | none ↦ none
  | some unit ↦ elim (number_in (member_json cadence "interval")) [
    | none ↦ none
    | some n ↦ cadence_interval_ms unit n
  ]
]

is_valid : Option Interval → Bool
is_valid none = false
is_valid (some i) = true

mode_errors : Option String → List WatchError
mode_errors none = invalid_mode ∷ []
mode_errors (some mode) =
    if str_eq mode "sample"
    then []
    else if str_eq mode "operator_supplied"
    then []
    else if str_eq mode "connector_fed"
    then connector_fed_unbuilt ∷ []
    else invalid_mode ∷ []

is_alert : Json → Bool
is_alert (str s) = str_eq s "miss" || str_eq s "result_change" || str_eq s "gate_hold"
is_alert _ = false

alert_entries : Items → List WatchError
unfolding is_alert
alert_entries nil = []
alert_entries (cons a rest) = unless (is_alert a) (bad_alert a) ++ alert_entries rest

alert_errors : Option Json → List WatchError
unfolding alert_entries
alert_errors none = []
alert_errors (some (arr (cons a rest))) = alert_entries (cons a rest)
alert_errors (some _) = alert_on_empty ∷ []

evidence_entries : ℕ → Items → List WatchError
unfolding is_there member_text
evidence_entries i nil = []
evidence_entries i (cons e rest) =
    unless (is_there (member_text (some e) "framework")) (framework_required i)
    ++ unless (is_there (member_text (some e) "control_id")) (control_id_required i)
    ++ evidence_entries (suc i) rest

evidence_errors : Option Json → List WatchError
unfolding evidence_entries
evidence_errors none = []
evidence_errors (some (arr (cons e rest))) = evidence_entries 0 (cons e rest)
evidence_errors (some _) = evidences_empty ∷ []

-- validateWatchInput
unfoldable pub validate_watch_input : Json → List WatchError
unfolding is_there is_digest_ref is_valid requested_interval mode_errors alert_errors
    evidence_errors member_text member_json
validate_watch_input input =
    let pack = member_json (some input) "pack_ref" in
    unless (is_there (member_text pack "pack_id")) pack_id_required
    ++ unless (is_digest_ref (member_text pack "pack_digest")) pack_digest_required
    ++ unless (is_valid (requested_interval (member_json (some input) "cadence"))) invalid_cadence
    ++ mode_errors (member_text (member_json (some input) "inputs_source") "mode")
    ++ alert_errors (member_json (some input) "alert_on")
    ++ evidence_errors (member_json (some input) "evidences")
    ++ unless (is_there (member_text (member_json (some input) "created_by") "id"))
        created_by_required
    ++ unless (is_there (member_text (some input) "consent_ref")) consent_required
