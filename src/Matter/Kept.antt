-- ===== src/Matter/Kept.antt =====
-- hub/matter-store.mjs: the calls of the store, and that a done deadline is never lost.
use ainumbers_helm.Matter.Store.{
  Deadline, Draft, Matter, MatterRow, Tables, register_evidence_bundle, is_still_done,
  lost_deadline, row_of, merge_draft, seal, delete_matter,
}
use ainumbers_helm.Matter.Calls.{
  Call, create, update, remove, register, step, run, create-cases, update-cases,
}
use ainumbers_helm.Prelude.{
  ℕ, String, true, none, some, List, [], ◌∷◌, str_eq, str_eq→eq, str_eq_refl, any, All, ◌≡◌, refl,
  ◌∙◌, ap, subst, Bool-cases, Option-cases, inl, inr, arith,
}
use ainumbers_helm.Prelude.Dict.{Dict, get, set, get-set, get-delete}

-- Every deadline of the first list that is done stands, done, in the second.
abbrev pub Kept : List Deadline → List Deadline → Type 0
Kept ds next = All (λ d. d.done ≡ true → any (is_still_done d) next ≡ true) ds

is_still_done_refl : (d : Deadline) → d.done ≡ true → is_still_done d d ≡ true
unfolding is_still_done
is_still_done_refl d h = rw (str_eq_refl d.date, str_eq_refl d.action, str_eq_refl d.source, h) refl

-- Of two deadlines with one natural key, the second done.
still_done-Meaning :
    (p d : Deadline)
    → is_still_done p d ≡ true
    → (d.date ≡ p.date) × (d.action ≡ p.action) × (d.source ≡ p.source) × (d.done ≡ true)
unfolding is_still_done
still_done-Meaning p d h = (
  ground (arith, str_eq→eq d.date p.date),
  ground (arith, str_eq→eq d.action p.action),
  ground (arith, str_eq→eq d.source p.source),
  ground arith,
)

is_still_done_trans :
    (a b c : Deadline)
    → is_still_done a b ≡ true
    → is_still_done b c ≡ true
    → is_still_done a c ≡ true
unfolding is_still_done
is_still_done_trans a b c h k =
    let p = still_done-Meaning a b h in
    let q = still_done-Meaning b c k in
    rw
      (
        q.0,
        q.1,
        q.2,
        q.3,
        p.0,
        p.1,
        p.2,
        str_eq_refl a.date,
        str_eq_refl a.action,
        str_eq_refl a.source,
      )
      refl

any_still_done :
    (a b : Deadline) (next : List Deadline)
    → is_still_done a b ≡ true
    → any (is_still_done b) next ≡ true
    → any (is_still_done a) next ≡ true
any_still_done a b [] h k = cc
any_still_done a b (c ∷ next) h k = elim (Bool-cases (is_still_done b c)) [
  | inl e ↦ rw (is_still_done_trans a b c h e) refl
  | inr e ↦
      let rest = any_still_done a b next h (rw e at k) in
      elim (Bool-cases (is_still_done a c)) [ inl f ↦ rw f refl | inr f ↦ rw f rest ]
]

Kept-cons : (d : Deadline) (ds next : List Deadline) → Kept ds next → Kept ds (d ∷ next)
Kept-cons d [] next h = tt
Kept-cons d (x ∷ xs) next h = (
  λ e. elim (Bool-cases (is_still_done x d)) [ inl f ↦ rw f refl | inr f ↦ rw f (h.0 e) ],
  Kept-cons d xs next h.1,
)

Kept-refl : (ds : List Deadline) → Kept ds ds
Kept-refl [] = tt
Kept-refl (d ∷ ds) = (λ e. rw (is_still_done_refl d e) refl, Kept-cons d ds ds (Kept-refl ds))

Kept-any :
    (p : Deadline) (ds next : List Deadline)
    → Kept ds next
    → any (is_still_done p) ds ≡ true
    → any (is_still_done p) next ≡ true
Kept-any p [] next k h = cc
Kept-any p (d ∷ ds) next k h = elim (Bool-cases (is_still_done p d)) [
  | inl e ↦ any_still_done p d next e (k.0 (still_done-Meaning p d e).3)
  | inr e ↦ Kept-any p ds next k.1 (rw e at h)
]

Kept-trans : (as' bs cs : List Deadline) → Kept as' bs → Kept bs cs → Kept as' cs
Kept-trans [] bs cs h k = tt
Kept-trans (a ∷ as') bs cs h k = (λ e. Kept-any a bs cs k (h.0 e), Kept-trans as' bs cs h.1 k)

lost_deadline-Kept : (ds next : List Deadline) → lost_deadline ds next ≡ none → Kept ds next
unfolding lost_deadline
lost_deadline-Kept [] next h = tt
lost_deadline-Kept (d ∷ ds) next h = (
  λ e. elim (Bool-cases (any (is_still_done d) next)) [
    | inl f ↦ f
    | inr f ↦ cc (rw (lost_deadline, e, f) at h)
  ],
  lost_deadline-Kept ds next (ground arith),
)

-- A call that deletes this matter.
abbrev pub Removes : String → Call → Type 0
Removes matter_id (remove other) = str_eq other matter_id ≡ true
Removes matter_id _ = ⊥

-- The same matter later: its time of creation, and its done deadlines.
pub record Continues (m m' : Draft) : Type 0 where
  pub created : m'.created_at ≡ m.created_at
  pub kept : Kept m.deadlines m'.deadlines

module _ (sha256_hex : List ℕ → String) (validate : Matter → List String) where
  abbrev Later : Dict MatterRow → String → MatterRow → Type 0
  Later rows matter_id r =
      (r' : MatterRow) × (get rows matter_id ≡ some r')
      × Continues r.manifest.draft r'.manifest.draft

  same-Later :
      (rows rows' : Dict MatterRow) (matter_id : String) (r : MatterRow)
      → get rows matter_id ≡ some r
      → rows' ≡ rows
      → Later rows' matter_id r
  same-Later rows rows' matter_id r h e =
      (r, rw e h, record { created = refl; kept = Kept-refl r.manifest.draft.deadlines })

  written_over :
      (rows rows' : Dict MatterRow) (matter_id key : String) (r v : MatterRow)
      → get rows matter_id ≡ some r
      → rows' ≡ set rows key v
      → (str_eq key matter_id ≡ true → Continues r.manifest.draft v.manifest.draft)
      → Later rows' matter_id r
  written_over rows rows' matter_id key r v h w k = elim (Bool-cases (str_eq key matter_id)) [
    | inl e ↦ (v, rw (w, get-set rows key v matter_id, e) refl, k e)
    | inr e ↦ (
      r,
      rw (w, get-set rows key v matter_id, e) h,
      record { created = refl; kept = Kept-refl r.manifest.draft.deadlines },
    )
  ]

  taken :
      (t : Tables) (ulid matter_id : String) (r : MatterRow)
      → get t.matters matter_id ≡ some r
      → get t.matters ulid ≡ none
      → str_eq ulid matter_id ≡ true
      → ⊥
  taken t ulid matter_id r h f e =
      let same : ulid ≡ matter_id = str_eq→eq ulid matter_id e in cc (rw same at f)

  same_row :
      (t : Tables) (key matter_id : String) (old r : MatterRow)
      → get t.matters key ≡ some old
      → get t.matters matter_id ≡ some r
      → str_eq key matter_id ≡ true
      → old ≡ r
  same_row t key matter_id old r s h e =
      let same : key ≡ matter_id = str_eq→eq key matter_id e in cc (rw same at s)

  step-Later :
      (c : Call) (t : Tables) (matter_id : String) (r : MatterRow)
      → get t.matters matter_id ≡ some r
      → (Removes matter_id c → ⊥)
      → Later (step sha256_hex validate c t).matters matter_id r
  unfolding delete_matter register_evidence_bundle merge_draft seal row_of
  step-Later (create now ulid q) t matter_id r h n =
      elim (create-cases sha256_hex validate now ulid q t) [
        | inl e ↦ same-Later t.matters _ matter_id r h (ap (λ (x : Tables). x.matters) e)
        | inr c ↦
            written_over t.matters _ matter_id ulid r _ h (ap (λ (x : Tables). x.matters) c.written)
              (λ e. absurd (taken t ulid matter_id r h c.fresh e))
      ]
  step-Later (update now other p) t matter_id r h n =
      elim (update-cases sha256_hex validate now other p t) [
        | inl e ↦ same-Later t.matters _ matter_id r h (ap (λ (x : Tables). x.matters) e)
        | inr u ↦
            written_over t.matters _ matter_id other r _ h
              (ap (λ (x : Tables). x.matters) u.written)
              (λ e.
                let same : u.old ≡ r = same_row t other matter_id u.old r u.stored h e in
                subst (λ x. Continues x.manifest.draft (merge_draft now u.old.manifest.draft p))
                  same (record { created = refl; kept = lost_deadline-Kept _ _ u.kept }))
      ]
  step-Later (remove other) t matter_id r h n = elim (Bool-cases (str_eq other matter_id)) [
    | inl e ↦ absurd (n e)
    | inr e ↦ (
      r,
      rw (delete_matter, get-delete t.matters other matter_id, e) h,
      record { created = refl; kept = Kept-refl r.manifest.draft.deadlines },
    )
  ]
  step-Later (register now digest run_id) t matter_id r h n =
      elim (Option-cases (get t.registry digest)) [
        | inl e ↦ same-Later t.matters _ matter_id r h (rw (register_evidence_bundle, e) refl)
        | inr (x, e) ↦ same-Later t.matters _ matter_id r h (rw (register_evidence_bundle, e) refl)
      ]

  -- Whatever calls follow, none of them the deletion of this matter, the matter is still there with
  -- its time of creation, and each of its done deadlines stands in it, done, with the same date,
  -- action and source.
  pub done_deadlines_kept :
      (calls : List Call) (t : Tables) (matter_id : String) (r : MatterRow)
      → get t.matters matter_id ≡ some r
      → All (λ c. Removes matter_id c → ⊥) calls
      → (r' : MatterRow) × (get (run sha256_hex validate calls t).matters matter_id ≡ some r')
        × Continues r.manifest.draft r'.manifest.draft
  done_deadlines_kept [] t matter_id r h n = same-Later t.matters t.matters matter_id r h refl
  done_deadlines_kept (c ∷ calls) t matter_id r h n =
      let one = step-Later c t matter_id r h n.0 in
      let rest =
        done_deadlines_kept calls (step sha256_hex validate c t) matter_id one.0 one.1 n.1 in
      (
        rest.0,
        rest.1,
        record {
          created = rest.2.created ∙ one.2.created;
          kept = Kept-trans _ _ _ one.2.kept rest.2.kept;
        },
      )
