-- ===== src/HaStore/Slots.antt =====
-- What holds of the maker-checker slots of hub/ha-store.mjs under every sequence of calls.
use ainumbers_helm.Prelude.{
  ℕ, ◌≤◌, String, ◌≡◌, refl, sym, ◌∙◌, subst, true, false, Option, none, some, List, [], ◌∷◌, ◌++◌,
  length, eq_iff, if◌then◌else◌, All, All-append, Bool-cases, arith, inl, inr, ◌⊎◌,
}
use native.Mathlib.Nat.{le_trans}
use mathlib.Core.List.{append-nil, append_assoc}
use ainumbers_helm.HaStore.{
  Slot, MakerSignature, Countersignature, returned, decide_maker, decide_countersignature,
  decide_pin, is_maker, is_attester_kind, is_empty, keyid_of, is_pinned, distinct_human_checker_ids,
  collect_ids, insert_id, counts,
}

-- A countersignature that may stand beside the maker: there is a maker, the checker is not it, and
-- the kind of the attester is stated.
pub record Admissible (maker : Option MakerSignature) (c : Countersignature) : Type 0 where
  pub maker_known : is_empty (keyid_of maker) ≡ false
  pub apart : is_maker c (keyid_of maker) ≡ false
  pub kind_stated : is_attester_kind c.attester_kind ≡ true

abbrev pub required_of : Option ℕ → ℕ
required_of none = 0
required_of (some n) = n

abbrev pub human_count : Slot → ℕ
human_count slot = length (distinct_human_checker_ids slot.countersignatures)

pub record IsSeparated (slot : Slot) : Type 0 where
  pub admissible : All (Admissible slot.maker_signature) slot.countersignatures
  pub pinned_met : is_pinned slot ≡ true → required_of slot.threshold ≤ human_count slot

insert_id-grows : (id : String) (ids : List String) → length ids ≤ length (insert_id id ids)
unfolding insert_id
insert_id-grows id [] = omega arith
insert_id-grows id (x ∷ xs) = ground (arith, insert_id-grows id xs)

collect_ids-grows :
    (ids : List String) (cs : List Countersignature) → length ids ≤ length (collect_ids ids cs)
unfolding collect_ids
collect_ids-grows ids [] = omega arith
collect_ids-grows ids (c ∷ cs) = elim (Bool-cases (counts c)) [
  | inl e ↦ rw e (
      omega (
        arith,
        insert_id-grows c.identity_id ids,
        collect_ids-grows (insert_id c.identity_id ids) cs,
      ))
  | inr e ↦ rw e (collect_ids-grows ids cs)
]

collect_ids-append :
    (ids : List String) (xs ys : List Countersignature)
    → collect_ids ids (xs ++ ys) ≡ collect_ids (collect_ids ids xs) ys
unfolding collect_ids
collect_ids-append ids [] ys = refl
collect_ids-append ids (x ∷ xs) ys =
    collect_ids-append (if counts x then insert_id x.identity_id ids else ids) xs ys

-- More countersignatures never count fewer humans.
human_ids-grow :
    (xs ys : List Countersignature)
    → length (distinct_human_checker_ids xs) ≤ length (distinct_human_checker_ids (xs ++ ys))
unfolding distinct_human_checker_ids
human_ids-grow xs ys = rw (collect_ids-append [] xs ys) (collect_ids-grows (collect_ids [] xs) ys)

-- How a slot may change: the maker stays once there is one, countersignatures are only added at the
-- end, and a pinned threshold and moment stay.
pub record Extends (old new : Slot) : Type 0 where
  pub more : List Countersignature
  pub maker_kept :
      is_empty (keyid_of old.maker_signature) ≡ false
      → keyid_of new.maker_signature ≡ keyid_of old.maker_signature
  pub appended : new.countersignatures ≡ old.countersignatures ++ more
  pub still_pinned : is_pinned old ≡ true → is_pinned new ≡ true
  pub threshold_kept : is_pinned old ≡ true → new.threshold ≡ old.threshold
  pub moment_kept : is_pinned old ≡ true → new.as_of ≡ old.as_of

pub Extends-refl : (s : Slot) → Extends s s
Extends-refl s = record {
  more = [];
  maker_kept = λ h. refl;
  appended = sym (append-nil s.countersignatures);
  still_pinned = λ h. h;
  threshold_kept = λ h. refl;
  moment_kept = λ h. refl;
}

pub Extends-trans : {a b c : Slot} → Extends a b → Extends b c → Extends a c
Extends-trans {a} {b} {c} p q = record {
  more = p.more ++ q.more;
  maker_kept = λ h. q.maker_kept (rw (p.maker_kept h) h) ∙ p.maker_kept h;
  appended = rw (q.appended, p.appended) (append_assoc a.countersignatures p.more q.more);
  still_pinned = λ h. q.still_pinned (p.still_pinned h);
  threshold_kept = λ h. q.threshold_kept (p.still_pinned h) ∙ p.threshold_kept h;
  moment_kept = λ h. q.moment_kept (p.still_pinned h) ∙ p.moment_kept h;
}

Admissible-same_maker :
    (a b : Option MakerSignature) (cs : List Countersignature)
    → keyid_of a ≡ keyid_of b
    → All (Admissible a) cs
    → All (Admissible b) cs
Admissible-same_maker a b [] e h = tt
Admissible-same_maker a b (c ∷ cs) e h = (
  record {
    maker_known = rw e at h.0.maker_known;
    apart = rw e at h.0.apart;
    kind_stated = h.0.kind_stated;
  },
  Admissible-same_maker a b cs e h.1,
)

no_maker_no_checks :
    (a b : Option MakerSignature) (cs : List Countersignature)
    → is_empty (keyid_of a) ≡ true
    → All (Admissible a) cs
    → All (Admissible b) cs
no_maker_no_checks a b [] e h = tt
no_maker_no_checks a b (c ∷ cs) e h = cc (h.0.maker_known)

-- one decision of a call on a slot, with what it keeps
pub record Keeps (old new : Slot) : Type 0 where
  pub separated : IsSeparated old → IsSeparated new
  pub extends : Extends old new

decide_maker_cases :
    (old new : Slot) (m : MakerSignature)
    → decide_maker old m ≡ returned new
    → (new ≡ record old { maker_signature = some m })
      × ((is_empty (keyid_of old.maker_signature) ≡ true)
          ⊎ (keyid_of old.maker_signature ≡ m.keyid))
unfolding decide_maker
decide_maker_cases old new m h = ground (arith, eq_iff (keyid_of old.maker_signature) m.keyid)

pub decide_maker-Keeps :
    (old new : Slot) (m : MakerSignature) → decide_maker old m ≡ returned new → Keeps old new
unfolding is_pinned
decide_maker-Keeps old new m h =
    let (made, why) = decide_maker_cases old new m h in
    subst (Keeps old) (sym made) (record {
      separated = λ i. record {
        admissible = elim why [
          | inl none_yet ↦
              no_maker_no_checks old.maker_signature (some m) old.countersignatures none_yet
                i.admissible
          | inr same ↦
              Admissible-same_maker old.maker_signature (some m) old.countersignatures same
                i.admissible
        ];
        pinned_met = i.pinned_met;
      };
      extends = record {
        more = [];
        maker_kept = λ k. elim why [ inl none_yet ↦ cc | inr same ↦ sym same ];
        appended = sym (append-nil old.countersignatures);
        still_pinned = λ k. k;
        threshold_kept = λ k. refl;
        moment_kept = λ k. refl;
      };
    })

decide_countersignature_cases :
    (old new : Slot) (c : Countersignature)
    → decide_countersignature old c ≡ returned new
    → ((new ≡ old) ⊎ (new ≡ record old { countersignatures = old.countersignatures ++ c ∷ [] }))
      × Admissible old.maker_signature c
unfolding decide_countersignature
decide_countersignature_cases old new c h = ground arith

pub decide_countersignature-Keeps :
    (old new : Slot) (c : Countersignature)
    → decide_countersignature old c ≡ returned new
    → Keeps old new
unfolding is_pinned
decide_countersignature-Keeps old new c h = elim (decide_countersignature_cases old new c h).0 [
  | inl same ↦
      subst (Keeps old) (sym same) (record { separated = λ i. i; extends = Extends-refl old })
  | inr added ↦ subst (Keeps old) (sym added) (record {
    separated = λ i. record {
      admissible =
          All-append (Admissible old.maker_signature) old.countersignatures (c ∷ []) i.admissible
            ((decide_countersignature_cases old new c h).1, tt);
      pinned_met = λ p. le_trans (i.pinned_met p) (human_ids-grow old.countersignatures (c ∷ []));
    };
    extends = record {
      more = c ∷ [];
      maker_kept = λ k. refl;
      appended = refl;
      still_pinned = λ k. k;
      threshold_kept = λ k. refl;
      moment_kept = λ k. refl;
    };
  })
]

decide_pin_cases :
    (old new : Slot) (n : ℕ) (now : String)
    → decide_pin old n now ≡ some new
    → (new ≡ record old { threshold = some n; as_of = now })
      × (is_pinned old ≡ false)
      × (n ≤ human_count old)
unfolding decide_pin
decide_pin_cases old new n now h = ground arith

pub decide_pin-Keeps :
    (old new : Slot) (n : ℕ) (now : String) → decide_pin old n now ≡ some new → Keeps old new
decide_pin-Keeps old new n now h =
    let (pinned, unpinned, met) = decide_pin_cases old new n now h in
    subst (Keeps old) (sym pinned) (record {
      separated = λ i. record { admissible = i.admissible; pinned_met = λ _. met };
      extends = record {
        more = [];
        maker_kept = λ k. refl;
        appended = sym (append-nil old.countersignatures);
        still_pinned = λ k. cc;
        threshold_kept = λ k. cc;
        moment_kept = λ k. cc;
      };
    })
