-- ===== src/Matter/Offsets.antt =====
-- The cross-reference table of buildPdf in hub/matter-store.mjs is right: each offset is the place
-- where its object begins.
use mathlib.Core.List.{map-append, append_assoc, append-nil}
use ainumbers_helm.Matter.Pdf.{
  Text, object_text, write_objects, pdf_header, pdf_trailer, latin1, build_pdf,
}
use ainumbers_helm.Prelude.{ℕ, suc, ◌%◌, List, [], ◌∷◌, ◌++◌, length, ◌≡◌, refl, sym, ◌∙◌, ap}

-- The part of the file from the offset on begins with the text.
abbrev pub StandsAt : List ℕ → ℕ → Text → Type 0
StandsAt file offset text =
    (before : Text) × (after : Text) × (file ≡ latin1 before ++ (latin1 text ++ latin1 after))
    × (length before ≡ offset)

-- Each object stands at its offset, under its number.
abbrev pub AllStand : List ℕ → ℕ → List Text → List ℕ → Type 0
AllStand file n [] [] = Unit
AllStand file n (body ∷ objs) (offset ∷ offsets) =
    StandsAt file offset (object_text n body) × AllStand file (suc n) objs offsets
AllStand file n _ _ = ⊥

latin1-append : (xs ys : Text) → latin1 (xs ++ ys) ≡ latin1 xs ++ latin1 ys
unfolding latin1
latin1-append xs ys = map-append (λ c. c % 256) xs ys

-- What is written begins with what was there.
write_objects-Begins :
    (n : ℕ) (out : Text) (objs : List Text)
    → (more : Text) × ((write_objects n out objs).0 ≡ out ++ more)
unfolding write_objects
write_objects-Begins n out [] = ([], sym (append-nil out))
write_objects-Begins n out (body ∷ objs) =
    let rest = write_objects-Begins (suc n) (out ++ object_text n body) objs in
    (object_text n body ++ rest.0, rest.1 ∙ append_assoc out (object_text n body) rest.0)

write_objects-AllStand :
    (n : ℕ) (out : Text) (objs : List Text) (end : Text)
    → AllStand (latin1 ((write_objects n out objs).0 ++ end)) n objs (write_objects n out objs).1
unfolding write_objects
write_objects-AllStand n out [] end = tt
write_objects-AllStand n out (body ∷ objs) end =
    let here : Text = object_text n body in
    let rest = write_objects-Begins (suc n) (out ++ here) objs in
    (
      (
        out,
        rest.0 ++ end,
        rw (rest.1, append_assoc, append_assoc, latin1-append, latin1-append) refl,
        refl,
      ),
      write_objects-AllStand (suc n) (out ++ here) objs end,
    )

-- In the file that buildPdf makes of any objects, each offset of the cross-reference table is the
-- number of bytes before its object, and what stands there is the object under its own number; the
-- offset that `startxref` states is the number of bytes before the table.
pub build_pdf-AllStand :
    (objs : List Text) (root : ℕ)
    → let written = write_objects 1 pdf_header objs in
      AllStand (build_pdf objs root) 1 objs written.1
      × StandsAt
          (build_pdf objs root)
          (length written.0)
          (pdf_trailer (suc (length objs)) root (length written.0) written.1)
unfolding build_pdf latin1
build_pdf-AllStand objs root =
    let written : Text × List ℕ = write_objects 1 pdf_header objs in
    let end : Text = pdf_trailer (suc (length objs)) root (length written.0) written.1 in
    (
      write_objects-AllStand 1 pdf_header objs end,
      (
        written.0,
        [],
        latin1-append written.0 end
            ∙ ap (λ x. latin1 written.0 ++ x) (sym (append-nil (latin1 end))),
        refl,
      ),
    )
