-- ===== src/HaStore.antt =====
-- hub/ha-store.mjs: the human-accountability records and the maker-checker slots. The two tables
-- are the list of records in insertion order and a map from a subject's digest to its slot. What
-- validates the shape of a record (the vendored schema and evaluator) is a parameter.
pub mod Slots
pub mod History
pub mod Records
pub mod Tests
use ainumbers_helm.Prelude.{
  ℕ, String, Bool, true, false, ◌&&◌, ◌||◌, Option, none, some, List, [], ◌∷◌, ◌++◌, map, length,
  ltb, leb, ◌==◌, str_eq, if◌then◌else◌, keep, any,
}
use ainumbers_helm.Prelude.Bytes.{codes}
use ainumbers_helm.Prelude.Dict.{Dict, get, set}

-- One §27.2 record; `digest` is its own canonical digest, `body` the rest of it.
pub record HaRecord : Type 0 where
  pub record_type : String
  pub role : String
  pub subject_hash : String
  pub identity_id : String
  pub body : String

pub record MakerSignature : Type 0 where
  pub keyid : String
  pub sig : String
  pub alg : String
  pub attester_kind : String

pub record Countersignature : Type 0 where
  pub role : String
  pub identity_id : String
  pub keyid : String
  pub sig : String
  pub signed_at : String
  pub replay_verified : Option Bool
  pub attester_kind : String

pub record Slot : Type 0 where
  pub bundle_digest : String
  pub maker_signature : Option MakerSignature
  pub countersignatures : List Countersignature
  pub threshold : Option ℕ
  pub as_of : String

-- a row of `ha_records`
pub record Stored : Type 0 where
  pub record_id : String
  pub content : HaRecord
  pub created_at : ℕ

pub record Store : Type 0 where
  pub records : List Stored
  pub slots : Dict Slot

unfoldable pub init_ha_tables : Store
init_ha_tables = record { records = []; slots = [] }

pub data Refusal : Type 0 where
  bad_shape no_keyid maker_swapped no_maker same_identity no_attester_kind : Refusal

-- A call returns the store also where it throws: what it wrote before stays.
pub data Outcome {ℓ} (A : Type ℓ) : Type ℓ where
  returned : A → Outcome A
  refused : Refusal → Outcome A

-- The characters that String.prototype.trim removes.
is_space : ℕ → Bool
is_space c =
    if leb 9 c && leb c 13
    then true
    else if c == 32 || c == 160 || c == 0x1680
    then true
    else if leb 0x2000 c && leb c 0x200a
    then true
    else c == 0x2028 || c == 0x2029 || c == 0x202f || c == 0x205f || c == 0x3000 || c == 0xfeff

drop_spaces : List ℕ → List ℕ
unfolding is_space
drop_spaces [] = []
drop_spaces (c ∷ cs) = let rest = drop_spaces cs in if is_space c then rest else c ∷ cs

keep_unless_last : ℕ → List ℕ → List ℕ
unfolding is_space
keep_unless_last c [] = if is_space c then [] else c ∷ []
keep_unless_last c (d ∷ ds) = c ∷ d ∷ ds

-- the text up to its last character that is no space
trim_end : List ℕ → List ℕ
unfolding keep_unless_last
trim_end [] = []
trim_end (c ∷ cs) = keep_unless_last c (trim_end cs)

-- String.prototype.trim, as code points
unfoldable pub trim : String → List ℕ
unfolding drop_spaces trim_end
trim s = trim_end (drop_spaces (codes s))

unfoldable pub codes_eq : List ℕ → List ℕ → Bool
codes_eq [] [] = true
codes_eq (a ∷ as') (b ∷ bs) = let rest = codes_eq as' bs in if a == b then rest else false
codes_eq _ _ = false

abbrev pub is_empty : String → Bool
is_empty s = str_eq s ""

pub record Validator : Type 0 where
  pub record_digest : HaRecord → String
  pub validate_shape : HaRecord → Bool

unfoldable pub has_id : String → List Stored → Bool
has_id id [] = false
has_id id (r ∷ rs) = let rest = has_id id rs in if str_eq r.record_id id then true else rest

-- INSERT OR IGNORE under the record's own digest
unfoldable pub append_ha_record : Validator → ℕ → HaRecord → Store → Store × Outcome String
unfolding has_id
append_ha_record v now r s =
    let id = v.record_digest r in
    if v.validate_shape r
    then (
      (if has_id id s.records then s else record s {
        records = s.records ++ record { record_id = id; content = r; created_at = now } ∷ [];
      }),
      returned id,
    )
    else (s, refused bad_shape)

by_creation : Stored → List Stored → List Stored
by_creation r [] = r ∷ []
by_creation r (x ∷ xs) =
    let rest = by_creation r xs in if leb r.created_at x.created_at then r ∷ x ∷ xs else x ∷ rest

sort_by_creation : List Stored → List Stored
unfolding by_creation
sort_by_creation [] = []
sort_by_creation (r ∷ rs) = by_creation r (sort_by_creation rs)

-- WHERE subject_hash = ? ORDER BY created_at ASC
unfoldable pub records_for_subject : Store → String → List HaRecord
unfolding sort_by_creation
records_for_subject s subject_hash =
    map (λ (r : Stored). r.content)
      (sort_by_creation (keep (λ r. str_eq r.content.subject_hash subject_hash) s.records))

unfoldable pub get_slot : Store → String → Option Slot
get_slot s subject_hash = get s.slots subject_hash

empty_slot : String → Option MakerSignature → Slot
empty_slot subject_hash maker = record {
  bundle_digest = subject_hash;
  maker_signature = maker;
  countersignatures = [];
  threshold = none;
  as_of = "";
}

unfoldable pub get_or_init_slot : Store → String → Option MakerSignature → Store × Slot
unfolding empty_slot
get_or_init_slot s subject_hash maker = elim (get s.slots subject_hash) [
  | some slot ↦ (s, slot)
  | none ↦
      let slot = empty_slot subject_hash maker in
      (record s { slots = set s.slots subject_hash slot }, slot)
]

-- UPDATE ha_countersignature_slots
abbrev pub put_slot : Store → String → Slot → Store
put_slot s subject_hash slot = record s { slots = set s.slots subject_hash slot }

-- maker_signature?.keyid, "" where there is none
abbrev pub keyid_of : Option MakerSignature → String
keyid_of none = ""
keyid_of (some m) = m.keyid

-- The part of `setMakerSignature` below the lookup.
unfoldable pub decide_maker : Slot → MakerSignature → Outcome Slot
decide_maker existing m =
    if is_empty m.keyid
    then refused no_keyid
    else if is_empty (keyid_of existing.maker_signature)
    then returned (record existing { maker_signature = some m })
    else if str_eq (keyid_of existing.maker_signature) m.keyid
    then returned (record existing { maker_signature = some m })
    else refused maker_swapped

abbrev pub save : Store → String → Outcome Slot → Store × Outcome Slot
save s subject_hash (returned slot) = (put_slot s subject_hash slot, returned slot)
save s subject_hash (refused r) = (s, refused r)

-- The missing keyid is refused before any table is touched.
unfoldable pub set_maker_signature : Store → String → MakerSignature → Store × Outcome Slot
set_maker_signature s subject_hash m =
    if is_empty m.keyid
    then (s, refused no_keyid)
    else let (s', existing) = get_or_init_slot s subject_hash none in
      save s' subject_hash (decide_maker existing m)

abbrev pub is_attester_kind : String → Bool
is_attester_kind k = str_eq k "human" || str_eq k "automated"

-- same identity and same moment: an exact resubmission
abbrev pub same_act : Countersignature → Countersignature → Bool
same_act a b = str_eq a.identity_id b.identity_id && str_eq a.signed_at b.signed_at

not_empty : List ℕ → Bool
not_empty [] = false
not_empty (x ∷ xs) = true

-- The checker is the maker: the two texts agree when trimmed, and are not empty.
unfoldable pub is_maker : Countersignature → String → Bool
unfolding trim codes_eq not_empty
is_maker c maker_keyid =
    let checker_id = trim c.identity_id in
    not_empty checker_id && codes_eq checker_id (trim maker_keyid)

-- The part of `addCountersignature` below the lookup.
unfoldable pub decide_countersignature : Slot → Countersignature → Outcome Slot
decide_countersignature slot c =
    let maker_keyid = keyid_of slot.maker_signature in
    if is_empty maker_keyid
    then refused no_maker
    else if is_maker c maker_keyid
    then refused same_identity
    else if is_attester_kind c.attester_kind
    then returned (
        if any (λ x. same_act x c) slot.countersignatures
        then slot
        else record slot { countersignatures = slot.countersignatures ++ c ∷ [] })
    else refused no_attester_kind

unfoldable pub add_countersignature :
    Store → String → Countersignature → Option MakerSignature → Store × Outcome Slot
add_countersignature s subject_hash c maker =
    let (s', slot) = get_or_init_slot s subject_hash maker in
    save s' subject_hash (decide_countersignature slot c)

-- The set of distinct identities of human checkers, in the order of first appearance.
insert_id : String → List String → List String
insert_id id [] = id ∷ []
insert_id id (x ∷ xs) = let rest = insert_id id xs in if str_eq x id then x ∷ xs else x ∷ rest

counts : Countersignature → Bool
counts c =
    if str_eq c.attester_kind "human"
    then (if is_empty c.identity_id then false else true)
    else false

collect_ids : List String → List Countersignature → List String
unfolding insert_id counts
collect_ids ids [] = ids
collect_ids ids (c ∷ cs) = collect_ids (if counts c then insert_id c.identity_id ids else ids) cs

unfoldable pub distinct_human_checker_ids : List Countersignature → List String
unfolding collect_ids
distinct_human_checker_ids cs = collect_ids [] cs

unfoldable pub is_pinned : Slot → Bool
is_pinned slot = elim slot.threshold [
  | none ↦ false
  | some n ↦ if is_empty slot.as_of then false else true
]

-- The slot to write, if there is one: a pinned slot is immutable, an unsatisfied one has nothing to
-- pin.
unfoldable pub decide_pin : Slot → ℕ → String → Option Slot
decide_pin slot required now =
    if is_pinned slot
    then none
    else if ltb (length (distinct_human_checker_ids slot.countersignatures)) required
    then none
    else some (record slot { threshold = some required; as_of = now })

save_pin : Store → String → Slot → Option Slot → Store × Option Slot
save_pin s subject_hash slot none = (s, some slot)
save_pin s subject_hash slot (some pinned) = (put_slot s subject_hash pinned, some pinned)

unfoldable pub pin_slot_satisfaction : Store → String → ℕ → String → Store × Option Slot
unfolding save_pin
pin_slot_satisfaction s subject_hash required now = elim (get s.slots subject_hash) [
  | none ↦ (s, none)
  | some slot ↦ save_pin s subject_hash slot (decide_pin slot required now)
]
