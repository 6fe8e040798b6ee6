-- ===== src/Documents/Upload.antt =====
-- api/services/upload.py: the size cap of a streamed upload. A read returns a list of bytes, and the
-- empty one ends the body; the files are the caller's, so that a failed stream leaves nothing.
use embedbase.Documents.Content.{Bytes}
use embedbase.Http.{Result, message, ok, raise}
use embedbase.Prelude.{
  Bool, List, Option, [], any_of, false, if◌then◌else◌, leb, length, none, not, some, suc, ℕ, ◌&&◌,
  ◌++◌, ◌+◌, ◌||◌, ◌∷◌,
}

abbrev pub default_max_bytes : ℕ
default_max_bytes = 52428800

unfoldable pub resolve_max_bytes : Option ℕ → ℕ
resolve_max_bytes none = default_max_bytes
resolve_max_bytes (some n) = n

-- the bytes that `strip()` takes away
abbrev pub is_blank : ℕ → Bool
is_blank b = leb b 32 && (leb 32 b || (leb 9 b && leb b 13))

abbrev pub has_content : Bytes → Bool
has_content content = any_of (λ x. not (is_blank x)) content

abbrev pub too_large : {A : Type 0} → ℕ → Result A
too_large limit = raise 413 (message "File exceeds maximum size")

abbrev pub empty_file : {A : Type 0} → Result A
empty_file = raise 422 (message "File is empty")

-- The loop, with the bytes written and whether any of them is content.
unfoldable pub stream_from : ℕ → ℕ → Bool → List Bytes → Result ℕ
stream_from limit written seen [] = if seen then ok written else empty_file
stream_from limit written seen ([] ∷ reads) = if seen then ok written else empty_file
stream_from limit written seen ((b ∷ chunk) ∷ reads) =
    let total : ℕ = written + length (b ∷ chunk) in
    let rest = stream_from limit total (seen || has_content (b ∷ chunk)) reads in
    if leb (suc limit) total then too_large limit else rest

abbrev pub declared_over : ℕ → Option ℕ → Bool
declared_over limit none = false
declared_over limit (some n) = leb (suc limit) n

unfoldable pub stream_upload_with_size_guard : Option ℕ → Option ℕ → List Bytes → Result ℕ
stream_upload_with_size_guard declared max_bytes reads =
    let limit : ℕ = resolve_max_bytes max_bytes in
    let streamed = stream_from limit 0 false reads in
    if declared_over limit declared then too_large limit else streamed

-- the bytes that the reads write to the file
abbrev pub flatten : List Bytes → Bytes
flatten [] = []
flatten (chunk ∷ reads) = chunk ++ flatten reads
