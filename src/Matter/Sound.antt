-- ===== src/Matter/Sound.antt =====
-- What holds of the matters that hub/matter-store.mjs keeps: the digest, the columns, the shape and
-- the bindings.
use ainumbers_helm.Matter.Calls.{
  Call, create, update, remove, register, step, run, IsAccepted, create-cases, update-cases,
}
use ainumbers_helm.Matter.Store.{
  Binding, BindingError, Draft, Matter, MatterRow, Registered, Tables, register_evidence_bundle,
  is_some, resolves, binding_errors, unresolved_from, unresolved_bindings, row_of, create_draft,
  merge_draft, seal, delete_matter,
}
use ainumbers_helm.Prelude.{
  ℕ, suc, String, true, some, List, [], ◌∷◌, ◌++◌, str_eq, str_eq→eq, All, ◌≡◌, ◌⊎◌, refl, sym, ◌∙◌,
  ap, subst, Bool-cases, Option-cases, inl, inr, arith,
}
use ainumbers_helm.Prelude.Dict.{Dict, get, set, delete, get-set, get-delete}

-- A binding that is exempt, or names what is there.
abbrev pub IsResolved : Tables → Binding → Type 0
IsResolved t b =
    (str_eq b.subject_kind "external_reference" ≡ true)
    ⊎ (resolves t b.subject_kind b.subject_hash ≡ some true)

no_errors-IsResolved :
    (t : Tables) (i : ℕ) (b : Binding)
    → binding_errors t i b ≡ []
    → resolves t b.subject_kind b.subject_hash ≡ some true
unfolding binding_errors
no_errors-IsResolved t i b h = elim (Option-cases (resolves t b.subject_kind b.subject_hash)) [
  | inl e ↦ cc (rw (binding_errors, e) at h)
  | inr (v, e) ↦ elim (Bool-cases v) [
    | inl q ↦ e ∙ ap (λ x. some x) q
    | inr q ↦ cc (rw (binding_errors, e, q) at h)
  ]
]

append_nothing : (xs ys : List BindingError) → xs ++ ys ≡ [] → (xs ≡ []) × (ys ≡ [])
append_nothing [] ys h = (refl, h)
append_nothing (x ∷ xs) ys h = cc

unresolved_from-IsResolved :
    (t : Tables) (i : ℕ) (bs : List Binding) → unresolved_from t i bs ≡ [] → All (IsResolved t) bs
unfolding unresolved_from
unresolved_from-IsResolved t i [] h = tt
unresolved_from-IsResolved t i (b ∷ bs) h =
    elim (Bool-cases (str_eq b.subject_kind "external_reference")) [
      | inl e ↦ (inl e, unresolved_from-IsResolved t (suc i) bs (rw (unresolved_from, e) at h))
      | inr e ↦
          let parts =
            append_nothing (binding_errors t i b) (unresolved_from t (suc i) bs)
              (rw (unresolved_from, e) at h) in
          (
            inr (no_errors-IsResolved t i b parts.0),
            unresolved_from-IsResolved t (suc i) bs parts.1,
          )
    ]

-- What resolves in the first tables resolves in the second.
abbrev Grows : Tables → Tables → Type 0
Grows t t' =
    (kind hash : String) → resolves t kind hash ≡ some true → resolves t' kind hash ≡ some true

All-Grows :
    (t t' : Tables) (bs : List Binding)
    → Grows t t'
    → All (IsResolved t) bs
    → All (IsResolved t') bs
All-Grows t t' [] g h = tt
All-Grows t t' (b ∷ bs) g h = (
  elim h.0 [ inl e ↦ inl e | inr e ↦ inr (g b.subject_kind b.subject_hash e) ],
  All-Grows t t' bs g h.1,
)

matters-Grows : (t : Tables) (rows : Dict MatterRow) → Grows t (record t { matters = rows })
unfolding resolves
matters-Grows t rows kind hash h = h

registered_still :
    (registry : Dict Registered) (digest : String) (r : Registered) (hash : String)
    → is_some (get registry hash) ≡ true
    → is_some (get (set registry digest r) hash) ≡ true
unfolding is_some
registered_still registry digest r hash h =
    rw (get-set registry digest r hash)
      (elim (Bool-cases (str_eq digest hash)) [ inl e ↦ rw e refl | inr e ↦ rw e h ])

registry-Grows :
    (t : Tables) (digest : String) (r : Registered)
    → Grows t (record t { registry = set t.registry digest r })
unfolding resolves is_some
registry-Grows t digest r kind hash h = ground (arith, registered_still t.registry digest r hash)

module _ (sha256_hex : List ℕ → String) (validate : Matter → List String) where
  -- A row whose manifest is sealed, valid and bound, and whose columns are those of it.
  pub record IsKept (t : Tables) (matter_id : String) (r : MatterRow) : Type 0 where
    pub key : r.manifest.draft.matter_id ≡ matter_id
    pub columns : r ≡ row_of r.manifest
    pub sealed : r.manifest ≡ seal sha256_hex validate r.manifest.draft
    pub shape : validate r.manifest ≡ []
    pub bound : All (IsResolved t) r.manifest.draft.bindings

  abbrev pub IsSound : Tables → Type 0
  IsSound t =
      (matter_id : String) (r : MatterRow) → get t.matters matter_id ≡ some r → IsKept t matter_id r

  grown-IsKept :
      (t t' : Tables) (matter_id : String) (r : MatterRow)
      → Grows t t'
      → IsKept t matter_id r
      → IsKept t' matter_id r
  grown-IsKept t t' matter_id r g k = record {
    key = k.key;
    columns = k.columns;
    sealed = k.sealed;
    shape = k.shape;
    bound = All-Grows t t' r.manifest.draft.bindings g k.bound;
  }

  written-IsSound :
      (t : Tables) (key : String) (v : MatterRow)
      → IsSound t
      → IsKept t key v
      → IsSound (record t { matters = set t.matters key v })
  written-IsSound t key v s k matter_id r h =
      grown-IsKept t _ matter_id r (matters-Grows t (set t.matters key v))
        (elim (Bool-cases (str_eq key matter_id)) [
          | inl e ↦
              let same : v ≡ r = cc (rw (get-set t.matters key v matter_id, e) at h) in
              subst (λ x. IsKept t matter_id x) same
                (subst (λ x. IsKept t x v) (str_eq→eq key matter_id e) k)
          | inr e ↦ s matter_id r (rw (get-set t.matters key v matter_id, e) at h)
        ])

  accepted-IsKept :
      (t : Tables) (d : Draft) (v : MatterRow)
      → IsAccepted sha256_hex validate t (seal sha256_hex validate d)
      → v ≡ row_of (seal sha256_hex validate d)
      → IsKept t d.matter_id v
  unfolding seal unresolved_bindings row_of
  accepted-IsKept t d v a e = record {
    key = rw e refl;
    columns = rw e refl;
    sealed = rw e refl;
    shape = rw e a.shape;
    bound = rw e (unresolved_from-IsResolved t 0 d.bindings a.bindings);
  }

  pub step-IsSound : (c : Call) (t : Tables) → IsSound t → IsSound (step sha256_hex validate c t)
  unfolding create_draft merge_draft seal row_of delete_matter register_evidence_bundle
  step-IsSound (create now ulid q) t s = elim (create-cases sha256_hex validate now ulid q t) [
    | inl e ↦ subst IsSound (sym e) s
    | inr c ↦
        subst IsSound (sym c.written) (
          written-IsSound t ulid _ s
            (accepted-IsKept t (create_draft now ulid q) _ c.accepted refl))
  ]
  step-IsSound (update now matter_id p) t s =
      elim (update-cases sha256_hex validate now matter_id p t) [
        | inl e ↦ subst IsSound (sym e) s
        | inr u ↦ subst IsSound (sym u.written) (
            written-IsSound t matter_id _ s (
              let k : IsKept t matter_id u.old = s matter_id u.old u.stored in
              let m : Matter = seal sha256_hex validate (merge_draft now u.old.manifest.draft p) in
              subst (λ x. IsKept t x (record (row_of m) { created_at = u.old.created_at })) k.key
                (accepted-IsKept t (merge_draft now u.old.manifest.draft p) _ u.accepted (
                  ap (λ x. record (row_of m) { created_at = x })
                    (ap (λ (x : MatterRow). x.created_at) k.columns)))))
      ]
  step-IsSound (remove other) t s = λ matter_id r h.
      grown-IsKept t _ matter_id r (matters-Grows t (delete t.matters other))
        (elim (Bool-cases (str_eq other matter_id)) [
          | inl e ↦ cc (rw (get-delete t.matters other matter_id, e) at h)
          | inr e ↦ s matter_id r (rw (get-delete t.matters other matter_id, e) at h)
        ])
  step-IsSound (register now digest run_id) t s = elim (Option-cases (get t.registry digest)) [
    | inr (x, e) ↦ rw (register_evidence_bundle, e) s
    | inl e ↦
        rw (register_evidence_bundle, e)
          (λ matter_id r h.
            grown-IsKept t _ matter_id r
              (registry-Grows t digest (record { run_id = run_id; registered_at = now }))
              (s matter_id r h))
  ]

  run-IsSound :
      (calls : List Call) (t : Tables) → IsSound t → IsSound (run sha256_hex validate calls t)
  run-IsSound [] t s = s
  run-IsSound (c ∷ calls) t s =
      run-IsSound calls (step sha256_hex validate c t) (step-IsSound c t s)

  -- Beginning without matters, whatever calls follow: each row holds a manifest of its own key that
  -- the schema accepts, with the digest of its content and columns that repeat it, and every
  -- binding in it is an external reference or resolves in the tables.
  pub matters-IsSound :
      (calls : List Call) (t : Tables) → t.matters ≡ [] → IsSound (run sha256_hex validate calls t)
  unfolding get
  matters-IsSound calls t e = run-IsSound calls t (λ matter_id r h. cc (rw e at h))
