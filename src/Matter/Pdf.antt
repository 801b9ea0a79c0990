-- ===== src/Matter/Pdf.antt =====
-- hub/matter-store.mjs: the file format of the e-bundle's PDF. A text is the list of its characters, which are
-- one code unit each; Buffer.byteLength(text, "latin1") is then its length, and the file keeps the
-- low byte of each.
use ainumbers_helm.Json.{Json}
use ainumbers_helm.Prelude.{
  ℕ, zero, suc, ◌-◌, ◌%◌, String, Bool, Option, List, [], ◌∷◌, ◌++◌, map, length, leb, ◌==◌,
  if◌then◌else◌,
}
use ainumbers_helm.Prelude.Bytes.{codes, decimal}

abbrev pub Text : Type 0
Text = List ℕ

-- One member of `bindings_export`.
pub record Exported : Type 0 where
  pub subject_hash : String
  pub subject_kind : String
  pub note : Option String
  pub exported : Bool
  pub reason : Option String
  pub artifact : Option Json

escape_char : ℕ → Text
escape_char c =
    if c == b'\\'
    then b'\\' ∷ b'\\' ∷ []
    else if c == b'('
    then b'\\' ∷ b'(' ∷ []
    else if c == b')'
    then b'\\' ∷ b')' ∷ []
    else if c == 10
    then b' ' ∷ []
    else if c == 13
    then b' ' ∷ []
    else c ∷ []

-- The four replacements of pdfEscape, none of which meets what an earlier one put in.
unfoldable pub pdf_escape : Text → Text
unfolding escape_char
pdf_escape [] = []
pdf_escape (c ∷ cs) = escape_char c ++ pdf_escape cs

-- String(a - b)
unfoldable pub signed : ℕ → ℕ → Text
signed a b = if leb b a then decimal (a - b) else b'-' ∷ decimal (b - a)

unfoldable pub pagination_ops : ℕ → ℕ → Text
pagination_ops page total =
    codes "BT /F1 8 Tf 1 0 0 1 500 30 Tm (Page "
    ++ decimal page
    ++ codes " of "
    ++ decimal total
    ++ codes ") Tj ET\n"

-- One line; every line but the first begins with T*.
line_ops : Text → Text
unfolding pdf_escape
line_ops line = b'(' ∷ pdf_escape line ++ codes ") Tj\n"

more_line_ops : List Text → Text
unfolding line_ops
more_line_ops [] = []
more_line_ops (l ∷ ls) = codes "T*\n" ++ line_ops l ++ more_line_ops ls

all_line_ops : List Text → Text
unfolding more_line_ops
all_line_ops [] = []
all_line_ops (l ∷ ls) = line_ops l ++ more_line_ops ls

-- textOpsForLines with the arguments of its calls, which are its defaults
unfoldable pub text_ops_for_lines : List Text → Text
unfolding all_line_ops
text_ops_for_lines lines =
    codes "BT /F1 10 Tf 16 TL 1 0 0 1 56 740 Tm\n" ++ all_line_ops lines ++ codes "ET\n"

unfoldable pub stream_obj : Text → Text
stream_obj content =
    codes "<< /Length "
    ++ decimal (length content)
    ++ codes " >>\nstream\n"
    ++ content
    ++ codes "\nendstream"

-- `${n} 0 obj\n${body}\nendobj\n`
unfoldable pub object_text : ℕ → Text → Text
object_text n body = decimal n ++ codes " 0 obj\n" ++ body ++ codes "\nendobj\n"

-- The objects from number n on, after `out`: the text with them, and where each begins.
unfoldable pub write_objects : ℕ → Text → List Text → Text × List ℕ
write_objects n out [] = (out, [])
write_objects n out (body ∷ objs) =
    let rest = write_objects (suc n) (out ++ object_text n body) objs in
    (rest.0, length out ∷ rest.1)

zeros : ℕ → Text
zeros zero = []
zeros (suc n) = b'0' ∷ zeros n

-- String(offset).padStart(10, "0")
unfoldable pub pad_offset : ℕ → Text
unfolding zeros
pad_offset n = zeros (10 - length (decimal n)) ++ decimal n

xref_rows : List ℕ → Text
unfolding pad_offset
xref_rows [] = []
xref_rows (o ∷ os) = pad_offset o ++ codes " 00000 n \n" ++ xref_rows os

unfoldable pub pdf_header : Text
pdf_header = codes "%PDF-1.7\n%" ++ 0xe2 ∷ 0xe3 ∷ 0xcf ∷ 0xd3 ∷ 10 ∷ []

unfoldable pub pdf_trailer : ℕ → ℕ → ℕ → List ℕ → Text
unfolding xref_rows
pdf_trailer size root xref_start offsets =
    codes "xref\n0 "
    ++ decimal size
    ++ codes "\n0000000000 65535 f \n"
    ++ xref_rows offsets
    ++ codes "trailer\n<< /Size "
    ++ decimal size
    ++ codes " /Root "
    ++ decimal root
    ++ codes " 0 R >>\nstartxref\n"
    ++ decimal xref_start
    ++ codes "\n%%EOF"

unfoldable pub latin1 : Text → List ℕ
latin1 text = map (λ c. c % 256) text

unfoldable pub build_pdf : List Text → ℕ → List ℕ
unfolding write_objects pdf_header pdf_trailer latin1
build_pdf objs root =
    let written = write_objects 1 pdf_header objs in
    latin1 (written.0 ++ pdf_trailer (suc (length objs)) root (length written.0) written.1)
