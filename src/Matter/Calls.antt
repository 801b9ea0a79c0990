-- ===== src/Matter/Calls.antt =====
-- The calls of the store in hub/matter-store.mjs, and what each does to the tables.
use ainumbers_helm.Matter.Store.{
  Matter, MatterRow, Tables, Input, Patch, Outcome, done, refused, register_evidence_bundle,
  lost_deadline, row_of, create_draft, merge_draft, seal, checked, insert_matter, create_matter,
  get_matter, write_update, update_existing, update_matter, delete_matter, unresolved_bindings,
}
use ainumbers_helm.Prelude.{
  ℕ, String, Option, none, some, List, [], ◌∷◌, ◌≡◌, ◌⊎◌, refl, Option-cases, inl, inr,
}
use ainumbers_helm.Prelude.Dict.{get, set}

pub data Call : Type 0 where
  create : String → String → Input → Call
  update : String → String → Patch → Call
  remove : String → Call
  register : String → String → Option String → Call

-- The tables after a call, thrown or not.
abbrev pub after : Outcome (Tables × Matter) → Tables → Tables
after (done (t', m)) t = t'
after (refused why) t = t

pub List-cases : {A : Type 0} (xs : List A) → (xs ≡ []) ⊎ ((y : A) × (ys : List A) × (xs ≡ y ∷ ys))
List-cases [] = inl refl
List-cases (y ∷ ys) = inr (y, ys, refl)

module _ (sha256_hex : List ℕ → String) (validate : Matter → List String) where
  abbrev pub step : Call → Tables → Tables
  step (create now ulid q) t = after (create_matter sha256_hex validate now ulid q t) t
  step (update now matter_id p) t = after (update_matter sha256_hex validate now matter_id p t) t
  step (remove matter_id) t = (delete_matter sha256_hex validate matter_id t).0
  step (register now digest run_id) t = register_evidence_bundle now digest run_id t

  abbrev pub run : List Call → Tables → Tables
  run [] t = t
  run (c ∷ cs) t = run cs (step c t)

  -- A manifest that both checks let pass.
  pub record IsAccepted (t : Tables) (m : Matter) : Type 0 where
    pub shape : validate m ≡ []
    pub bindings : unresolved_bindings t m.draft.bindings ≡ []

  checked-cases :
      (t : Tables) (m : Matter) (next : Outcome (Tables × Matter))
      → (after (checked sha256_hex validate t m next) t ≡ t)
        ⊎ (IsAccepted t m × (checked sha256_hex validate t m next ≡ next))
  unfolding checked
  checked-cases t m next = elim (List-cases (validate m)) [
    | inr (e, es, h) ↦ inl (rw (checked, h) refl)
    | inl h ↦ elim (List-cases (unresolved_bindings t m.draft.bindings)) [
      | inr (e, es, k) ↦ inl (rw (checked, h, k) refl)
      | inl k ↦ inr (record { shape = h; bindings = k }, rw (checked, h, k) refl)
    ]
  ]

  -- What createMatter writes.
  pub record Created (now ulid : String) (q : Input) (t : Tables) : Type 0 where
    pub fresh : get t.matters ulid ≡ none
    pub accepted : IsAccepted t (seal sha256_hex validate (create_draft now ulid q))
    pub written : step (create now ulid q) t ≡ record t {
      matters = set t.matters ulid (row_of (seal sha256_hex validate (create_draft now ulid q)));
    }

  pub create-cases :
      (now ulid : String) (q : Input) (t : Tables)
      → (step (create now ulid q) t ≡ t) ⊎ Created now ulid q t
  unfolding create_matter insert_matter create_draft seal
  create-cases now ulid q t =
      let m : Matter = seal sha256_hex validate (create_draft now ulid q) in
      elim (checked-cases t m (insert_matter sha256_hex validate m t)) [
        | inl h ↦ inl h
        | inr (a, h) ↦ elim (Option-cases (get t.matters ulid)) [
          | inr (r, e) ↦ inl (rw (h, insert_matter, e) refl)
          | inl e ↦
              inr (record { fresh = e; accepted = a; written = rw (h, insert_matter, e) refl })
        ]
      ]

  -- What updateMatter writes over the row `old`.
  pub record Updated (now matter_id : String) (p : Patch) (t : Tables) : Type 0 where
    pub old : MatterRow
    pub stored : get t.matters matter_id ≡ some old
    pub kept :
        lost_deadline old.manifest.draft.deadlines (merge_draft now old.manifest.draft p).deadlines
        ≡ none
    pub accepted : IsAccepted t (seal sha256_hex validate (merge_draft now old.manifest.draft p))
    pub written : step (update now matter_id p) t ≡ record t {
      matters =
          set t.matters matter_id
            (record (row_of (seal sha256_hex validate (merge_draft now old.manifest.draft p))) {
              created_at = old.created_at;
            });
    }

  pub update-cases :
      (now matter_id : String) (p : Patch) (t : Tables)
      → (step (update now matter_id p) t ≡ t) ⊎ Updated now matter_id p t
  unfolding update_matter get_matter update_existing write_update seal
  update-cases now matter_id p t = elim (Option-cases (get t.matters matter_id)) [
    | inl e ↦ inl (rw (update_matter, e) refl)
    | inr (r, e) ↦
        let m : Matter = seal sha256_hex validate (merge_draft now r.manifest.draft p) in
        elim (Option-cases (lost_deadline r.manifest.draft.deadlines m.draft.deadlines)) [
          | inr (d, k) ↦ inl (rw (update_matter, e, update_existing, k) refl)
          | inl k ↦
              elim (checked-cases t m (done (write_update sha256_hex validate matter_id m t, m))) [
                | inl h ↦ inl (rw (update_matter, e, update_existing, k) h)
                | inr (a, h) ↦ inr (record {
                  old = r;
                  stored = e;
                  kept = k;
                  accepted = a;
                  written = rw (update_matter, e, update_existing, k, h, write_update, e) refl;
                })
              ]
        ]
  ]
