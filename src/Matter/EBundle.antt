-- ===== src/Matter/EBundle.antt =====
-- hub/matter-store.mjs: the objects of the e-bundle's PDF, an index and one page for each binding.
use ainumbers_helm.Json.{str}
use ainumbers_helm.Matter.Pdf.{
  Text, Exported, pdf_escape, signed, pagination_ops, text_ops_for_lines, stream_obj, build_pdf,
}
use ainumbers_helm.Matter.Store.{Deadline, Draft, member_of}
use ainumbers_helm.Prelude.{
  ℕ, zero, suc, ◌+◌, ◌-◌, ◌*◌, String, not, Option, none, some, List, [], ◌∷◌, ◌++◌, map, length,
  ◌==◌, if◌then◌else◌, keep,
}
use ainumbers_helm.Prelude.Bytes.{codes, decimal}

-- objs.push(body); its number is then objs.length
unfoldable pub add_obj : Text → List Text → List Text × ℕ
add_obj body objs = (objs ++ body ∷ [], suc (length objs))

-- objs[i] = body
put_at : ℕ → Text → List Text → List Text
put_at i body [] = []
put_at zero body (o ∷ objs) = body ∷ objs
put_at (suc i) body (o ∷ objs) = o ∷ put_at i body objs

-- objs[n - 1] = body
unfoldable pub put_obj : ℕ → Text → List Text → List Text
unfolding put_at
put_obj n body objs = put_at (n - 1) body objs

-- list[i]; the code reads no place that there is not
number_at : ℕ → List ℕ → ℕ
number_at i [] = 0
number_at zero (n ∷ ns) = n
number_at (suc i) (n ∷ ns) = number_at i ns

-- The empty objects of the pages and of their contents.
unfoldable pub add_pages : ℕ → List Text → List Text × List ℕ × List ℕ
unfolding add_obj
add_pages zero objs = (objs, [], [])
add_pages (suc k) objs =
    let page = add_obj [] objs in
    let content = add_obj [] page.0 in
    let rest = add_pages k content.0 in (rest.0, page.1 ∷ rest.1, content.1 ∷ rest.2)

unfoldable pub add_empty : List ℕ → List Text → List Text × List ℕ
unfolding add_obj
add_empty [] objs = (objs, [])
add_empty (p ∷ ps) objs =
    let one = add_obj [] objs in let rest = add_empty ps one.0 in (rest.0, one.1 ∷ rest.1)

-- `${entity?.id ?? ""}`; the schema makes it a text
entity_id : Draft → Text
unfolding member_of
entity_id m = elim (member_of (some m.entity) "id") [ some (str s) ↦ codes s | _ ↦ [] ]

deadline_line : Deadline → Text
deadline_line d =
    codes "  - " ++ codes d.date ++ b' ' ∷ codes d.action ++ codes " (" ++ codes d.kind ++ codes ")"

open_deadline_lines : List Deadline → List Text
unfolding deadline_line
open_deadline_lines [] = codes "No open deadlines." ∷ []
open_deadline_lines (d ∷ ds) =
    (codes "OPEN DEADLINES (" ++ decimal (length (d ∷ ds)) ++ codes ") — unredacted:")
    ∷ map deadline_line (d ∷ ds)

-- The lines of the index before its first entry.
unfoldable pub head_lines : Draft → ℕ → List Text
unfolding entity_id open_deadline_lines
head_lines m n =
    (codes "MATTER E-BUNDLE INDEX — " ++ codes m.matter_id)
      ∷ (codes "Entity: " ++ entity_id m)
      ∷ []
      ∷ open_deadline_lines (keep (λ (d : Deadline). not d.done) m.deadlines)
    ++ []
      ∷ (codes "INDEX ("
          ++ decimal n
          ++ codes " binding"
          ++ (if n == 1 then [] else codes "s")
          ++ codes "):")
      ∷ []

unfoldable pub entry_lines : ℕ → List Exported → List Text
entry_lines i [] = []
entry_lines i (b ∷ bs) =
    (codes "  "
      ++ decimal (suc i)
      ++ codes ". "
      ++ codes b.subject_kind
      ++ codes " - "
      ++ codes b.subject_hash
      ++ codes "  (p."
      ++ decimal (i + 2)
      ++ codes ")")
    ∷ entry_lines (suc i) bs

annot_text : ℕ → ℕ → Text
annot_text line page =
    codes "<< /Type /Annot /Subtype /Link /Rect [56 "
    ++ signed 740 (line * 16 + 3)
    ++ codes " 556 "
    ++ signed 750 (line * 16)
    ++ codes "] /Border [0 0 0] /Dest ["
    ++ decimal page
    ++ codes " 0 R /XYZ null null null] >>"

-- One link for each binding, to its page.
unfoldable pub add_annots : ℕ → ℕ → List Exported → List ℕ → List Text → List Text × List ℕ
unfolding annot_text number_at add_obj
add_annots first i [] pages objs = (objs, [])
add_annots first i (b ∷ bs) pages objs =
    let one = add_obj (annot_text (first + i) (number_at (suc i) pages)) objs in
    let rest = add_annots first (suc i) bs pages one.0 in (rest.0, one.1 ∷ rest.1)

-- nums.map((n) => `${n} 0 R`).join(" ")
reference : ℕ → Text
reference n = decimal n ++ codes " 0 R"

more_references : List ℕ → Text
unfolding reference
more_references [] = []
more_references (n ∷ ns) = b' ' ∷ reference n ++ more_references ns

references : List ℕ → Text
unfolding more_references
references [] = []
references (n ∷ ns) = reference n ++ more_references ns

annots_text : List ℕ → Text
unfolding references
annots_text [] = []
annots_text (n ∷ ns) = codes " /Annots [" ++ references (n ∷ ns) ++ codes "]"

page_text : ℕ → ℕ → ℕ → List ℕ → Text
unfolding annots_text
page_text pages font content annots =
    codes "<< /Type /Page /Parent "
    ++ decimal pages
    ++ codes " 0 R /MediaBox [0 0 612 792] /Resources << /Font << /F1 "
    ++ decimal font
    ++ codes " 0 R >> >> /Contents "
    ++ decimal content
    ++ codes " 0 R"
    ++ annots_text annots
    ++ codes " >>"

optional_line : Text → Option String → List Text
optional_line label none = []
optional_line label (some s) = elim (codes s) [ [] ↦ [] | c ∷ cs ↦ (label ++ c ∷ cs) ∷ [] ]

unfoldable pub binding_lines : ℕ → ℕ → Exported → List Text
unfolding optional_line
binding_lines i n b =
    (codes "BINDING " ++ decimal (suc i) ++ codes " of " ++ decimal n)
      ∷ (codes "subject_kind: " ++ codes b.subject_kind)
      ∷ (codes "subject_hash: " ++ codes b.subject_hash)
      ∷ (codes "exported: " ++ (if b.exported then codes "yes" else codes "no"))
      ∷ optional_line (codes "note: ") b.note
    ++ (if b.exported then [] else optional_line (codes "reason: ") b.reason)

-- The page of each binding and its content.
unfoldable pub put_binding_pages : ℕ → ℕ → List Exported → List ℕ × List ℕ → List Text → List Text
unfolding binding_lines page_text number_at put_obj
put_binding_pages i n [] nums objs = objs
put_binding_pages i n (b ∷ bs) nums objs =
    let content = number_at (suc i) nums.1 in
    let ops = text_ops_for_lines (binding_lines i n b) ++ pagination_ops (i + 2) (suc n) in
    put_binding_pages (suc i) n bs nums (
      put_obj (number_at (suc i) nums.0) (page_text 2 3 content [])
        (put_obj content (stream_obj ops) objs))

first_chars : ℕ → Text → Text
first_chars zero cs = []
first_chars (suc n) [] = []
first_chars (suc n) (c ∷ cs) = c ∷ first_chars n cs

outline_title : ℕ → List Exported → Text
unfolding first_chars
outline_title zero bs = codes "Index (p.1)"
outline_title (suc k) [] = []
outline_title (suc zero) (b ∷ bs) =
    codes b.subject_kind ++ codes " - " ++ first_chars 24 (codes b.subject_hash)
outline_title (suc (suc k)) (b ∷ bs) = outline_title (suc k) bs

-- `... (p.${k + 1})`, after the title of a binding
title_end : ℕ → Text
title_end zero = []
title_end (suc k) = codes "... (p." ++ decimal (k + 2) ++ codes ")"

-- Numbers begin at one, so that 0 stands for null.
sibling : Text → ℕ → Text
sibling label n = if n == 0 then [] else label ++ decimal n ++ codes " 0 R "

unfoldable pub put_outline : ℕ → ℕ → List ℕ → ℕ → List Exported → List ℕ → List Text → List Text
unfolding outline_title title_end sibling number_at put_obj
put_outline k prev [] root bs pages objs = objs
put_outline k prev (num ∷ nums) root bs pages objs =
    let text =
      codes "<< /Title ("
      ++ pdf_escape (outline_title k bs ++ title_end k)
      ++ codes ") /Parent "
      ++ decimal root
      ++ codes " 0 R "
      ++ sibling (codes "/Prev ") prev
      ++ sibling (codes "/Next ") (number_at 0 nums)
      ++ codes "/Dest ["
      ++ decimal (number_at k pages)
      ++ codes " 0 R /XYZ null null null] >>" in
    put_outline (suc k) num nums root bs pages (put_obj num text objs)

last_number : List ℕ → ℕ
last_number [] = 0
last_number (n ∷ []) = n
last_number (n ∷ m ∷ ns) = last_number (m ∷ ns)

-- The objects of buildEBundlePdf: 1 is the catalog, 2 the pages and 3 the font.
unfoldable pub e_bundle_objects : Draft → List Exported → List Text
unfolding add_pages add_empty add_annots put_binding_pages put_outline page_text references
    number_at last_number put_obj add_obj
e_bundle_objects m bs =
    let n = length bs in
    let head = head_lines m n in
    let font =
      codes "<< /Type /Font /Subtype /Type1 /BaseFont /Helvetica /Encoding /WinAnsiEncoding >>" in
    let paged = add_pages (suc n) ([] ∷ [] ∷ font ∷ []) in
    let pages = paged.1 in
    let contents = paged.2 in
    let index = text_ops_for_lines (head ++ entry_lines 0 bs) ++ pagination_ops 1 (suc n) in
    let objs1 = put_obj (number_at 0 contents) (stream_obj index) paged.0 in
    let linked = add_annots (length head) 0 bs pages objs1 in
    let objs2 =
      put_obj (number_at 0 pages) (page_text 2 3 (number_at 0 contents) linked.1) linked.0 in
    let objs3 = put_binding_pages 0 n bs (pages, contents) objs2 in
    let outlined = add_empty pages objs3 in
    let items = outlined.1 in
    let rooted = add_obj [] outlined.0 in
    let root = rooted.1 in
    let objs4 = put_outline 0 0 items root bs pages rooted.0 in
    let outlines =
      codes "<< /Type /Outlines /First "
      ++ decimal (number_at 0 items)
      ++ codes " 0 R /Last "
      ++ decimal (last_number items)
      ++ codes " 0 R /Count "
      ++ decimal (length items)
      ++ codes " >>" in
    let objs5 = put_obj root outlines objs4 in
    let kids =
      codes "<< /Type /Pages /Kids ["
      ++ references pages
      ++ codes "] /Count "
      ++ decimal (length pages)
      ++ codes " >>" in
    let catalog =
      codes "<< /Type /Catalog /Pages 2 0 R /Outlines "
      ++ decimal root
      ++ codes " 0 R /PageMode /UseOutlines /OpenAction ["
      ++ decimal (number_at 0 pages)
      ++ codes " 0 R /XYZ null null 1] >>" in
    put_obj 1 catalog (put_obj 2 kids objs5)

unfoldable pub build_e_bundle_pdf : Draft → List Exported → List ℕ
unfolding e_bundle_objects
build_e_bundle_pdf m bs = build_pdf (e_bundle_objects m bs) 1
