-- ===== src/Documents/Content.antt =====
-- api/services/upload.py: the sniffing of an object's first bytes, which are numbers below 256. The
-- extensions are lowercase, as the callers store them.
use embedbase.Http.{Check, about, ok, raise}
use embedbase.Prelude.{
  Bool, List, String, [], any_of, contains, false, if◌then◌else◌, leb, none, some, take, true, ℕ,
  ◌&&◌, ◌==◌, ◌||◌, ◌∷◌,
}
use embedbase.Prelude.Dict.{Dict, get}

abbrev pub Bytes : Type 0
Bytes = List ℕ

-- `head.startswith(prefix)` and `part in head`
unfoldable pub starts_with : Bytes → Bytes → Bool
starts_with head [] = true
starts_with [] (b ∷ prefix) = false
starts_with (a ∷ head) (b ∷ prefix) =
    let rest = starts_with head prefix in if leb a b && leb b a then rest else false

unfoldable pub has_part : Bytes → Bytes → Bool
has_part part [] = starts_with [] part
has_part part (a ∷ head) = starts_with (a ∷ head) part || has_part part head

abbrev pub pdf_magic : Bytes
pdf_magic = 37 ∷ 80 ∷ 68 ∷ 70 ∷ 45 ∷ []

abbrev pub zip_magic : Bytes
zip_magic = 80 ∷ 75 ∷ 3 ∷ 4 ∷ []

-- `_MAGIC_SIGNATURES`
abbrev pub magic_signatures : Dict (List Bytes)
magic_signatures =
    (".pdf", pdf_magic ∷ [])
    ∷ (".docx", zip_magic ∷ [])
    ∷ (".pptx", zip_magic ∷ [])
    ∷ (".xlsx", zip_magic ∷ [])
    ∷ []

abbrev pub text_exts : List String
text_exts = ".txt" ∷ ".md" ∷ ".markdown" ∷ ".csv" ∷ []

abbrev pub text_boms : List Bytes
text_boms =
    (239 ∷ 187 ∷ 191 ∷ []) ∷ (255 ∷ 254 ∷ []) ∷ (254 ∷ 255 ∷ []) ∷ (0 ∷ 0 ∷ 254 ∷ 255 ∷ []) ∷ []

abbrev pub binary_magics : List Bytes
binary_magics =
    pdf_magic
    ∷ zip_magic
    ∷ (137 ∷ 80 ∷ 78 ∷ 71 ∷ 13 ∷ 10 ∷ 26 ∷ 10 ∷ [])
    ∷ (255 ∷ 216 ∷ 255 ∷ [])
    ∷ (71 ∷ 73 ∷ 70 ∷ 56 ∷ 55 ∷ 97 ∷ [])
    ∷ (71 ∷ 73 ∷ 70 ∷ 56 ∷ 57 ∷ 97 ∷ [])
    ∷ (31 ∷ 139 ∷ [])
    ∷ (66 ∷ 77 ∷ [])
    ∷ (0 ∷ 0 ∷ 1 ∷ 0 ∷ [])
    ∷ (73 ∷ 73 ∷ 42 ∷ 0 ∷ [])
    ∷ (77 ∷ 77 ∷ 0 ∷ 42 ∷ [])
    ∷ (55 ∷ 122 ∷ 188 ∷ 175 ∷ 39 ∷ 28 ∷ [])
    ∷ (82 ∷ 97 ∷ 114 ∷ 33 ∷ 26 ∷ 7 ∷ [])
    ∷ []

abbrev pub mismatch : String → Check
mismatch ext = raise 415 (about "Uploaded bytes do not match the declared type" ext)

unfoldable pub validate_content : String → Bytes → Check
validate_content ext head = elim (get magic_signatures ext) [
  | some signatures ↦
      if any_of (starts_with head) signatures
      then ok tt
      else if ext == ".pdf" && has_part pdf_magic (take 1024 head)
      then ok tt
      else mismatch ext
  | none ↦
      if contains text_exts ext
      then (if any_of (starts_with head) text_boms
          then ok tt
          else if has_part (0 ∷ []) head || any_of (starts_with head) binary_magics
          then mismatch ext
          else ok tt)
      else ok tt
]
