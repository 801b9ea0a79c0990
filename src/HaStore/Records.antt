-- ===== src/HaStore/Records.antt =====
-- The record table of hub/ha-store.mjs.
use ainumbers_helm.Prelude.{
  ℕ, String, Bool, ◌≡◌, ◌∙◌, refl, true, any, map, keep, keep-append, arith, if◌then◌else◌, List,
  [], ◌∷◌, ◌++◌, str_eq, str_eq_refl, Bool-cases, inl, inr,
}
use ainumbers_helm.HaStore.{
  HaRecord, Validator, Stored, Store, append_ha_record, has_id, by_creation, sort_by_creation,
  records_for_subject,
}

pub has_id-snoc :
    (id : String) (rs : List Stored) (r : Stored)
    → r.record_id ≡ id
    → has_id id (rs ++ r ∷ []) ≡ true
unfolding has_id
has_id-snoc id [] r e = rw (e, str_eq_refl id) refl
has_id-snoc id (x ∷ xs) r e = elim (Bool-cases (str_eq x.record_id id)) [
  | inl same ↦ rw same refl
  | inr other ↦ rw (other, has_id-snoc id xs r e) refl
]

-- A record that is appended again, at whatever time, changes nothing and gives what the first append
-- gave, also where it was refused.
append_twice :
    (v : Validator) (first second : ℕ) (r : HaRecord) (s : Store)
    → append_ha_record v second r (append_ha_record v first r s).0 ≡ append_ha_record v first r s
unfolding append_ha_record
append_twice v first second r s = elim (Bool-cases (v.validate_shape r)) [
  | inr bad ↦ rw bad refl
  | inl good ↦ elim (Bool-cases (has_id (v.record_digest r) s.records)) [
    | inl there ↦ rw (good, there, there) refl
    | inr absent ↦
        rw
          (
            good,
            absent,
            has_id-snoc (v.record_digest r) s.records
                (record { record_id = v.record_digest r; content = r; created_at = first }) refl,
          )
          refl
  ]
]

any-insert :
    (p : HaRecord → Bool) (r : Stored) (rs : List Stored)
    → any (λ (x : Stored). p x.content) (by_creation r rs)
      ≡ (if p r.content then true else any (λ (x : Stored). p x.content) rs)
unfolding by_creation
any-insert p r [] = refl
any-insert p r (x ∷ xs) = ground (arith, any-insert p r xs)

any-sort :
    (p : HaRecord → Bool) (rs : List Stored)
    → any (λ (x : Stored). p x.content) (sort_by_creation rs) ≡ any (λ (x : Stored). p x.content) rs
unfolding sort_by_creation
any-sort p [] = refl
any-sort p (r ∷ rs) = any-insert p r (sort_by_creation rs) ∙ rw (any-sort p rs) refl

any-map :
    (p : HaRecord → Bool) (rs : List Stored)
    → any p (map (λ (r : Stored). r.content) rs) ≡ any (λ (x : Stored). p x.content) rs
any-map p [] = refl
any-map p (r ∷ rs) = rw (any-map p rs) refl

any-last :
    (p : HaRecord → Bool) (rs : List Stored) (r : Stored)
    → p r.content ≡ true
    → any (λ (x : Stored). p x.content) (rs ++ r ∷ []) ≡ true
any-last p [] r h = rw h refl
any-last p (x ∷ xs) r h = ground (arith, any-last p xs r h)

-- The last row of the table is among the records of its subject.
pub any-records_for_subject :
    (p : HaRecord → Bool) (s : Store) (subject : String) (rows : List Stored) (r : Stored)
    → s.records ≡ rows ++ r ∷ []
    → str_eq r.content.subject_hash subject ≡ true
    → p r.content ≡ true
    → any p (records_for_subject s subject) ≡ true
unfolding records_for_subject
any-records_for_subject p s subject rows r e mine h =
    let kept = keep (λ (x : Stored). str_eq x.content.subject_hash subject) s.records in
    any-map p (sort_by_creation kept)
    ∙ any-sort p kept
    ∙ rw (e, keep-append, mine)
        (any-last p (keep (λ (x : Stored). str_eq x.content.subject_hash subject) rows) r h)
