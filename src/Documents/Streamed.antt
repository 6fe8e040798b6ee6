-- ===== src/Documents/Streamed.antt =====
-- api/services/upload.py: the streamed guard against its reference, the tests of the whole body.
use embedbase.Documents.Content.{Bytes}
use embedbase.Documents.Upload.{
  declared_over, empty_file, flatten, has_content, is_blank, resolve_max_bytes, stream_from,
  stream_upload_with_size_guard, too_large,
}
use embedbase.Expansion.Budget.{size}
use embedbase.Http.{Result, ok}
use embedbase.Prelude.{
  Bool, Bool-cases, List, Option, [], all_of, any_of, ap, ap₂, arith, false, if◌then◌else◌, inl,
  inr, is_nil, leb, length, length-append, not, refl, suc, sym, true, ℕ, ◌++◌, ◌+◌, ◌||◌, ◌∙◌, ◌∷◌,
  ◌≡◌, ◌≤◌,
}

-- what the guard promises of a body of a length, with or without content
abbrev pub judged : ℕ → ℕ → Bool → Result ℕ
judged limit size content =
    if leb size limit then (if content then ok size else empty_file) else too_large limit

any_of-append : (p : ℕ → Bool) (xs ys : Bytes) → any_of p (xs ++ ys) ≡ (any_of p xs || any_of p ys)
any_of-append p [] ys = refl
any_of-append p (x ∷ xs) ys = ground (arith, any_of-append p xs ys)

or_assoc : (a b c : Bool) → ((a || b) || c) ≡ (a || (b || c))
or_assoc true b c = refl
or_assoc false b c = refl

stream_from-judged :
    (limit written : ℕ) (seen : Bool) (reads : List Bytes)
    → all_of (λ r. not (is_nil r)) reads ≡ true
    → written ≤ limit
    → stream_from limit written seen reads
      ≡ judged limit (written + length (flatten reads)) (seen || has_content (flatten reads))
unfolding stream_from
stream_from-judged limit written seen [] full le = ground arith
stream_from-judged limit written seen ([] ∷ reads) full le = ground arith
stream_from-judged limit written seen ((b ∷ chunk) ∷ reads) full le =
    let body : Bytes = flatten reads in
    let long = length-append (b ∷ chunk) body in
    elim (Bool-cases (leb (suc limit) (written + length (b ∷ chunk)))) [
      | inl over ↦ ground (arith, over, long)
      | inr under ↦
          let rest =
            stream_from-judged limit (written + length (b ∷ chunk))
              (seen || has_content (b ∷ chunk)) reads (ground arith) (ground arith) in
          let sizes : written + length (b ∷ chunk) + length body
              ≡ written + length ((b ∷ chunk) ++ body) =
            omega (arith, long) in
          let contents =
            or_assoc seen (has_content (b ∷ chunk)) (has_content body)
            ∙ ap (λ c. seen || c) (sym (any_of-append (λ x. not (is_blank x)) (b ∷ chunk) body)) in
          rw under (rest ∙ ap₂ (judged limit) sizes contents)
    ]

-- Where no read before the end of the body is empty: the guard returns the body's length exactly
-- where neither the declared nor the real length is over the cap and some byte is no white space. A
-- length over the cap is a 413, and else a body without content a 422, wherever the reads cut it.
pub stream_upload_with_size_guard-judged :
    (declared max_bytes : Option ℕ) (reads : List Bytes)
    → all_of (λ r. not (is_nil r)) reads ≡ true
    → stream_upload_with_size_guard declared max_bytes reads ≡ (
        if declared_over (resolve_max_bytes max_bytes) declared
        then too_large (resolve_max_bytes max_bytes)
        else judged
            (resolve_max_bytes max_bytes)
            (length (flatten reads))
            (has_content (flatten reads)))
unfolding stream_upload_with_size_guard
stream_upload_with_size_guard-judged declared max_bytes reads full =
    elim (Bool-cases (declared_over (resolve_max_bytes max_bytes) declared)) [
      | inl over ↦ rw over refl
      | inr under ↦ rw under (
          stream_from-judged (resolve_max_bytes max_bytes) 0 false reads full (omega arith)
          ∙ ap (λ n. judged (resolve_max_bytes max_bytes) n (has_content (flatten reads)))
              (omega arith))
    ]
