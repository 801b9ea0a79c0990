-- ===== src/Matter/Closing.antt =====
-- closeMatter of hub/matter-store.mjs: the call that closes a matter leaves its export.
use ainumbers_helm.Envelope.{Signing, Keys}
use ainumbers_helm.HaStore.{Stored}
use ainumbers_helm.Json.{Json}
use ainumbers_helm.Matter.Calls.{update, after, List-cases}
use ainumbers_helm.Matter.Closed.{Describes, export_bindings-Total}
use ainumbers_helm.Matter.Export.{
  exports, MatterExport, export_bindings, predicate_for, sealed_export, assemble_matter_export,
  Archive, closed, was_closed, persist, emit, close_matter, get_matter_export,
}
use ainumbers_helm.Matter.Pdf.{Exported}
use ainumbers_helm.Matter.Sound.{IsResolved, IsSound, step-IsSound}
use ainumbers_helm.Matter.Store.{
  Matter, MatterRow, Tables, Patch, Outcome, done, lost_deadline, row_of, merge_draft, seal,
  checked, get_matter, write_update, update_existing, update_matter, unresolved_bindings,
}
use ainumbers_helm.Prelude.{
  ℕ, String, true, false, none, some, List, str_eq, str_eq_refl, All, ◌≡◌, refl, ◌∙◌, ap, subst,
  Option-cases, inl, inr,
}
use ainumbers_helm.Prelude.Dict.{get, set, get-set}

module _ (sha256_hex : List ℕ → String) (validate : Matter → List String) where
  checked-done :
      (t : Tables) (m : Matter) (next : Outcome (Tables × Matter)) (o : Tables × Matter)
      → checked sha256_hex validate t m next ≡ done o
      → next ≡ done o
  unfolding checked
  checked-done t m next o h = elim (List-cases (validate m)) [
    | inr (e, es, k) ↦ cc (rw (checked, k) at h)
    | inl k ↦ elim (List-cases (unresolved_bindings t m.draft.bindings)) [
      | inr (e, es, l) ↦ cc (rw (checked, k, l) at h)
      | inl l ↦ rw (checked, k, l) at h
    ]
  ]

  written_read :
      (matter_id : String) (m : Matter) (t : Tables) (r : MatterRow)
      → get t.matters matter_id ≡ some r
      → get_matter sha256_hex validate (write_update sha256_hex validate matter_id m t) matter_id
        ≡ some m
  unfolding get_matter write_update row_of
  written_read matter_id m t r h =
      rw (get_matter, write_update, h, get-set, str_eq_refl matter_id) refl

  -- What an accepted update returns is what is read afterwards.
  update-Read :
      (now matter_id : String) (p : Patch) (t t' : Tables) (m : Matter)
      → update_matter sha256_hex validate now matter_id p t ≡ done (t', m)
      → get_matter sha256_hex validate t' matter_id ≡ some m
  unfolding update_matter update_existing get_matter
  update-Read now matter_id p t t' m h = elim (Option-cases (get t.matters matter_id)) [
    | inl e ↦ cc (rw (update_matter, e) at h)
    | inr (r, e) ↦
        let n : Matter = seal sha256_hex validate (merge_draft now r.manifest.draft p) in
        elim (Option-cases (lost_deadline r.manifest.draft.deadlines n.draft.deadlines)) [
          | inr (d, k) ↦ cc (rw (update_matter, e, update_existing, k) at h)
          | inl k ↦
              let same =
                checked-done t n (done (write_update sha256_hex validate matter_id n t, n)) (t', m)
                  (rw (update_matter, e, update_existing, k) at h) in
              let tables : write_update sha256_hex validate matter_id n t ≡ t' = cc in
              let matter : n ≡ m = cc in rw (← tables, ← matter) (written_read matter_id n t r e)
        ]
  ]

  row_read :
      (matter_id : String) (m : Matter) (t : Tables)
      → get_matter sha256_hex validate t matter_id ≡ some m
      → (r : MatterRow) × (get t.matters matter_id ≡ some r) × (r.manifest ≡ m)
  unfolding get_matter
  row_read matter_id m t h = elim (Option-cases (get t.matters matter_id)) [
    | inl e ↦ cc (rw (get_matter, e) at h)
    | inr (r, e) ↦ let same : r.manifest ≡ m = cc (rw (get_matter, e) at h) in (r, e, same)
  ]

  module _ (record_json : Stored → Json) (g : Signing) where
    assembled :
        (now matter_id : String) (keys : Keys g) (m : Matter) (t : Tables) (es : List Exported)
        → get_matter sha256_hex validate t matter_id ≡ some m
        → str_eq m.draft.status "closed" ≡ true
        → export_bindings record_json t m.draft.bindings ≡ exports es
        → assemble_matter_export record_json sha256_hex validate g now keys t matter_id
          ≡ exports (sealed_export record_json sha256_hex validate g now keys m es)
    unfolding assemble_matter_export
    assembled now matter_id keys m t es read c all = rw (assemble_matter_export, read, c, all) refl

    closing :
        (now matter_id : String) (p : Patch) (keys : Keys g)
        (a : Archive record_json sha256_hex validate g) (t' : Tables) (m : Matter)
        (x : MatterExport)
        → update_matter sha256_hex validate now matter_id p a.tables ≡ done (t', m)
        → str_eq m.draft.status "closed" ≡ true
        → was_closed record_json sha256_hex validate g
            (get_matter sha256_hex validate a.tables matter_id)
          ≡ false
        → assemble_matter_export record_json sha256_hex validate g now keys t' matter_id ≡ exports x
        → close_matter record_json sha256_hex validate g now matter_id p (some keys) a
          ≡ (record a { tables = t'; exports = set a.exports matter_id x }, closed m (some x))
    unfolding close_matter emit persist
    closing now matter_id p keys a t' m x u c b whole = rw (close_matter, u, c, b, emit, whole) refl

    -- Let the rows be sound and no run have the empty id. A call of closeMatter with keys, whose
    -- patch updateMatter accepts and makes a matter closed that was not, returns an export and
    -- leaves it to be read: of this matter, with one member for each binding, in their order. The
    -- member of an external reference carries no artifact; any other carries the artifact that the
    -- tables hold for the binding, and there is one.
    pub close_matter-Exported :
        (now matter_id : String) (p : Patch) (keys : Keys g)
        (a : Archive record_json sha256_hex validate g) (t' : Tables) (m : Matter)
        → IsSound sha256_hex validate a.tables
        → get t'.runs "" ≡ none
        → update_matter sha256_hex validate now matter_id p a.tables ≡ done (t', m)
        → m.draft.status ≡ "closed"
        → was_closed record_json sha256_hex validate g
            (get_matter sha256_hex validate a.tables matter_id)
          ≡ false
        → let out = close_matter record_json sha256_hex validate g now matter_id p (some keys) a in
          (x : MatterExport) × (out.1 ≡ closed m (some x))
          × (get_matter_export record_json sha256_hex validate g out.0 matter_id ≡ some x)
          × (x.manifest ≡ m)
          × Describes record_json t' m.draft.bindings x.predicate.bindings_export
    unfolding get_matter_export sealed_export predicate_for
    close_matter-Exported now matter_id p keys a t' m s n u c b =
        let cl : str_eq m.draft.status "closed" ≡ true = ap (λ z. str_eq z "closed") c in
        let read = update-Read now matter_id p a.tables t' m u in
        let sound : IsSound sha256_hex validate t' =
          subst (IsSound sha256_hex validate) (ap (λ o. after o a.tables) u)
            (step-IsSound sha256_hex validate (update now matter_id p) a.tables s) in
        let row = row_read matter_id m t' read in
        let bound : All (IsResolved t') m.draft.bindings =
          subst (λ (y : Matter). All (IsResolved t') y.draft.bindings) row.2
            (sound matter_id row.0 row.1).bound in
        let all = export_bindings-Total record_json t' m.draft.bindings n bound in
        let x : MatterExport = sealed_export record_json sha256_hex validate g now keys m all.0 in
        let whole = assembled now matter_id keys m t' all.0 read cl all.1 in
        let result = closing now matter_id p keys a t' m x u cl b whole in
        (
          x,
          ap (λ o. o.1) result,
          ap (λ o. get_matter_export record_json sha256_hex validate g o.0 matter_id) result
              ∙ rw (get_matter_export, get-set, str_eq_refl matter_id) refl,
          refl,
          all.2,
        )
