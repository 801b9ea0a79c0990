-- ===== src/Matter/Dat.antt =====
-- hub/matter-store.mjs: the load file of the export, one row of EDRM fields for each binding.
use ainumbers_helm.Json.{Json, str}
use ainumbers_helm.Matter.Pdf.{Text, Exported}
use ainumbers_helm.Matter.Store.{Draft, member_of}
use ainumbers_helm.Prelude.{ℕ, suc, String, ◌<>◌, Option, none, some, List, [], ◌∷◌, ◌++◌, map}
use ainumbers_helm.Prelude.Bytes.{codes, decimal}
use ainumbers_helm.Prelude.Dict.{Dict, get}

abbrev pub edrm_fields : List String
edrm_fields =
    "ATTACHMENTIDS" ∷ "AUTHORS" ∷ "BATES RANGE" ∷ "BCC" ∷ "CC" ∷ "CUSTODIAN" ∷ "DATECREATED"
    ∷ "DATERECEIVED" ∷ "DATESAVED" ∷ "DATESENT" ∷ "DOCEXT" ∷ "DOCID" ∷ "DOCLINK" ∷ "FILENAME"
    ∷ "FOLDER" ∷ "FROM" ∷ "HASH" ∷ "PARENTID" ∷ "RCRDTYPE" ∷ "SUBJECT" ∷ "THREAD ID"
    ∷ "TIMERECEIVED" ∷ "TIMESENT" ∷ "TO" ∷ []

-- The pilcrow between fields and the thorn around each.
abbrev pub dat_field_sep : ℕ
dat_field_sep = 0xb6

abbrev pub dat_text_qualifier : ℕ
dat_text_qualifier = 0xfe

unfoldable pub dat_quote : Text → Text
dat_quote value = dat_text_qualifier ∷ value ++ dat_text_qualifier ∷ []

-- A member of an artifact that is a text; a number or an object is not met there.
text_member : Option Json → String → Option Text
unfolding member_of
text_member o k = elim (member_of o k) [ some (str s) ↦ some (codes s) | _ ↦ none ]

-- a ?? b ?? ""
first_text : Option Text → Option Text → Text
first_text (some a) b = a
first_text none (some b) = b
first_text none none = []

entity_text : Draft → Text
unfolding text_member first_text
entity_text m = first_text (text_member (some m.entity) "id") none

unfoldable pub dat_row : Draft → ℕ → Exported → Dict Text
unfolding text_member first_text entity_text
dat_row m i b =
    let place = codes m.matter_id ++ codes "/bindings/" ++ decimal i in
    ("CUSTODIAN", entity_text m)
    ∷ (
      "DATECREATED",
      first_text (text_member b.artifact "created_at") (text_member b.artifact "recorded_at"),
    )
    ∷ ("DOCID", codes b.subject_hash)
    ∷ ("DOCLINK", place)
    ∷ ("FILENAME", place)
    ∷ ("HASH", codes b.subject_hash)
    ∷ ("PARENTID", first_text (text_member b.artifact "parent_subject_hash") none)
    ∷ ("RCRDTYPE", codes b.subject_kind)
    ∷ []

-- row[f]: the fields that the row does not name are the empty text.
dat_value : Dict Text → String → Text
dat_value row f = elim (get row f) [ none ↦ [] | some v ↦ v ]

-- values.join(sep)
unfoldable pub join_with : Text → List Text → Text
join_with sep [] = []
join_with sep (v ∷ []) = v
join_with sep (v ∷ w ∷ vs) = v ++ sep ++ join_with sep (w ∷ vs)

unfoldable pub dat_line : Dict Text → Text
unfolding dat_quote join_with dat_value
dat_line row =
    join_with (dat_field_sep ∷ []) (map (λ (f : String). dat_quote (dat_value row f)) edrm_fields)

unfoldable pub dat_header : Text
unfolding dat_quote join_with
dat_header = join_with (dat_field_sep ∷ []) (map (λ (f : String). dat_quote (codes f)) edrm_fields)

unfoldable pub dat_lines : Draft → ℕ → List Exported → List Text
unfolding dat_row dat_line
dat_lines m i [] = []
dat_lines m i (b ∷ bs) = dat_line (dat_row m i b) ∷ dat_lines m (suc i) bs

unfoldable pub build_edrm_dat : Draft → List Exported → Text
unfolding dat_lines dat_header join_with
build_edrm_dat m bs = join_with (13 ∷ 10 ∷ []) (dat_header ∷ dat_lines m 0 bs) ++ 13 ∷ 10 ∷ []

abbrev pub e_bundle_pdf_filename : Draft → String
e_bundle_pdf_filename m = m.matter_id <> "-e-bundle.pdf"

abbrev pub edrm_dat_filename : Draft → String
edrm_dat_filename m = m.matter_id <> ".dat"
