-- ===== src/HaStore/History.antt =====
-- The tables of hub/ha-store.mjs under every sequence of calls.
use ainumbers_helm.Prelude.{
  ℕ, String, ◌≡◌, refl, subst, Option, none, some, List, [], ◌∷◌, str_eq, str_eq→eq, str_eq_refl,
  Bool-cases, Option-cases, arith, inl, inr,
}
use ainumbers_helm.Prelude.Dict.{get, get-set}
use ainumbers_helm.HaStore.{
  Store, Slot, MakerSignature, Countersignature, HaRecord, Validator, Outcome, returned, refused,
  init_ha_tables, get_or_init_slot, set_maker_signature, add_countersignature, decide_maker,
  decide_countersignature, decide_pin, pin_slot_satisfaction, append_ha_record, is_empty, is_pinned,
  empty_slot, put_slot, save, save_pin,
}
use ainumbers_helm.HaStore.Slots.{
  IsSeparated, Keeps, Extends, Extends-refl, Extends-trans, decide_maker-Keeps,
  decide_countersignature-Keeps, decide_pin-Keeps,
}

-- From what a table holds under a key to what it holds later.
abbrev Related : Option Slot → Option Slot → Type 0
Related none none = Unit
Related none (some new) = IsSeparated new
Related (some old) none = ⊥
Related (some old) (some new) = Keeps old new

Keeps-refl : (s : Slot) → Keeps s s
Keeps-refl s = record { separated = λ i. i; extends = Extends-refl s }

Related-refl : (o : Option Slot) → Related o o
Related-refl none = tt
Related-refl (some s) = Keeps-refl s

Related-trans : (a b c : Option Slot) → Related a b → Related b c → Related a c
Related-trans none none c p q = q
Related-trans none (some b) none p q = absurd q
Related-trans none (some b) (some c) p q = q.separated p
Related-trans (some a) none c p q = absurd p
Related-trans (some a) (some b) none p q = absurd q
Related-trans (some a) (some b) (some c) p q = record {
  separated = λ i. q.separated (p.separated i);
  extends = Extends-trans p.extends q.extends;
}

Tables : Store → Store → Type 0
Tables s t = (k : String) → Related (get s.slots k) (get t.slots k)

Tables-refl : (s : Store) → Tables s s
unfolding Tables
Tables-refl s k = Related-refl (get s.slots k)

Tables-trans : (s t u : Store) → Tables s t → Tables t u → Tables s u
unfolding Tables
Tables-trans s t u p q k = Related-trans (get s.slots k) (get t.slots k) (get u.slots k) (p k) (q k)

put-Tables :
    (s : Store) (subject : String) (slot : Slot)
    → Related (get s.slots subject) (some slot)
    → Tables s (put_slot s subject slot)
unfolding Tables
put-Tables s subject slot r k = rw get-set (elim (Bool-cases (str_eq subject k)) [
  | inl same ↦
      rw same (subst (λ x. Related (get s.slots x) (some slot)) (str_eq→eq subject k same) r)
  | inr other ↦ rw other (Related-refl (get s.slots k))
])

empty-IsSeparated :
    (subject : String) (m : Option MakerSignature) → IsSeparated (empty_slot subject m)
unfolding empty_slot is_pinned
empty-IsSeparated subject m = record { admissible = tt; pinned_met = λ h. cc }

init-Tables :
    (s : Store) (subject : String) (m : Option MakerSignature)
    → Tables s (get_or_init_slot s subject m).0
      × (get (get_or_init_slot s subject m).0.slots subject ≡ some (get_or_init_slot s subject m).1)
unfolding get_or_init_slot
init-Tables s subject m = elim (Option-cases (get s.slots subject)) [
  | inl absent ↦
      rw (get_or_init_slot, absent)
        (
          put-Tables s subject (empty_slot subject m) (rw absent (empty-IsSeparated subject m)),
          rw (get-set, str_eq_refl subject),
        )
  | inr (slot, present) ↦ rw (get_or_init_slot, present) (Tables-refl s, present)
]

save-Tables :
    (s : Store) (subject : String) (old : Slot) (o : Outcome Slot)
    → get s.slots subject ≡ some old
    → ((new : Slot) → o ≡ returned new → Keeps old new)
    → Tables s (save s subject o).0
save-Tables s subject old (returned new) h k = put-Tables s subject new (rw h (k new refl))
save-Tables s subject old (refused r) h k = Tables-refl s

set_maker-Tables :
    (s : Store) (subject : String) (m : MakerSignature)
    → Tables s (set_maker_signature s subject m).0
unfolding set_maker_signature
set_maker-Tables s subject m = elim (Bool-cases (is_empty m.keyid)) [
  | inl e ↦ rw e (Tables-refl s)
  | inr e ↦
      let (s', slot) = get_or_init_slot s subject none in
      let (kept, found) = init-Tables s subject none in
      rw e (
        Tables-trans s s' _ kept (
          save-Tables s' subject slot (decide_maker slot m) found
            (λ new h. decide_maker-Keeps slot new m h)))
]

countersign-Tables :
    (s : Store) (subject : String) (c : Countersignature) (m : Option MakerSignature)
    → Tables s (add_countersignature s subject c m).0
unfolding add_countersignature
countersign-Tables s subject c m =
    let (s', slot) = get_or_init_slot s subject m in
    let (kept, found) = init-Tables s subject m in
    Tables-trans s s' _ kept (
      save-Tables s' subject slot (decide_countersignature slot c) found
        (λ new h. decide_countersignature-Keeps slot new c h))

save_pin-Tables :
    (s : Store) (subject : String) (old : Slot) (o : Option Slot)
    → get s.slots subject ≡ some old
    → ((new : Slot) → o ≡ some new → Keeps old new)
    → Tables s (save_pin s subject old o).0
unfolding save_pin
save_pin-Tables s subject old none h k = Tables-refl s
save_pin-Tables s subject old (some new) h k = put-Tables s subject new (rw h (k new refl))

pin-Tables :
    (s : Store) (subject : String) (n : ℕ) (now : String)
    → Tables s (pin_slot_satisfaction s subject n now).0
unfolding pin_slot_satisfaction
pin-Tables s subject n now = elim (Option-cases (get s.slots subject)) [
  | inl absent ↦ rw (pin_slot_satisfaction, absent) (Tables-refl s)
  | inr (slot, present) ↦
      rw (pin_slot_satisfaction, present)
        (save_pin-Tables s subject slot (decide_pin slot n now) present
          (λ new h. decide_pin-Keeps slot new n now h))
]

record-Tables :
    (v : Validator) (now : ℕ) (r : HaRecord) (s : Store) → Tables s (append_ha_record v now r s).0
unfolding append_ha_record Tables
record-Tables v now r s k = ground (arith, Related-refl (get s.slots k))

-- the calls that write
pub data Call : Type 0 where
  submit_record : ℕ → HaRecord → Call
  set_maker : String → MakerSignature → Call
  countersign : String → Countersignature → Option MakerSignature → Call
  pin : String → ℕ → String → Call

abbrev pub call : Validator → Call → Store → Store
call v (submit_record now r) s = (append_ha_record v now r s).0
call v (set_maker subject m) s = (set_maker_signature s subject m).0
call v (countersign subject c m) s = (add_countersignature s subject c m).0
call v (pin subject n now) s = (pin_slot_satisfaction s subject n now).0

abbrev pub run : Validator → List Call → Store → Store
run v [] s = s
run v (c ∷ cs) s = run v cs (call v c s)

call-Tables : (v : Validator) (c : Call) (s : Store) → Tables s (call v c s)
call-Tables v (submit_record now r) s = record-Tables v now r s
call-Tables v (set_maker subject m) s = set_maker-Tables s subject m
call-Tables v (countersign subject c m) s = countersign-Tables s subject c m
call-Tables v (pin subject n now) s = pin-Tables s subject n now

run-Tables : (v : Validator) (cs : List Call) (s : Store) → Tables s (run v cs s)
run-Tables v [] s = Tables-refl s
run-Tables v (c ∷ cs) s =
    Tables-trans s (call v c s) (run v cs (call v c s)) (call-Tables v c s)
      (run-Tables v cs (call v c s))

-- From empty tables, after whatever calls, every slot keeps maker and checkers apart: each
-- countersignature stands in a slot with a maker, its identity is not the maker's, its attester kind
-- is stated; and a pinned threshold is met by distinct human checkers.
pub run-IsSeparated :
    (v : Validator) (cs : List Call) (subject : String) (slot : Slot)
    → get (run v cs init_ha_tables).slots subject ≡ some slot
    → IsSeparated slot
unfolding init_ha_tables Tables get
run-IsSeparated v cs subject slot h = rw h at (run-Tables v cs init_ha_tables subject)

later :
    (old : Slot) (o : Option Slot)
    → Related (some old) o
    → (new : Slot) × (o ≡ some new) × Extends old new
later old none r = absurd r
later old (some new) r = (new, refl, r.extends)

-- Whatever calls follow, refused ones included, a slot stays, its maker is not swapped, its
-- countersignatures are only added to, and a threshold once pinned and its moment do not change.
pub run-Extends :
    (v : Validator) (cs : List Call) (s : Store) (subject : String) (old : Slot)
    → get s.slots subject ≡ some old
    → (new : Slot) × (get (run v cs s).slots subject ≡ some new) × Extends old new
unfolding Tables
run-Extends v cs s subject old h =
    later old (get (run v cs s).slots subject) (rw h at (run-Tables v cs s subject))
