-- ===== src/Chunks.antt =====
-- api/models/search.py: a search result, as the search services pass it on. The type of the scores
-- (`float`) is a parameter.
use Prim.Native.Nat.{suc}
use embedbase.Prelude.{List, Option, String, [], ℕ, ◌∷◌}

pub record SourceProvenance : Type 0 where
  pub collection_id : String
  pub collection_name : String
  pub workspace_id : String
  pub workspace_name : String
  pub document_id : Option String
  pub filename : Option String
  pub page_number : Option ℕ
  -- the pages of a span, first and last
  pub page_range : Option (ℕ × ℕ)

-- a stored `chunk_index`: what `int()` reads, or refuses with an error
pub data Ordinal : Type 0 where
  number : ℕ → Ordinal
  unreadable : Ordinal

-- the keys of `metadata` that the services read; an absent key is `none`
pub record Metadata : Type 0 where
  pub document_id : Option String
  pub chunk_index : Option Ordinal
  pub page_number : Option ℕ
  pub filename : Option String
  pub tags : List String

pub record SearchResult (S : Type 0) : Type 0 where
  pub chunk_id : String
  pub text : String
  pub score : S
  pub rank : ℕ
  pub source : Option SourceProvenance
  pub metadata : Metadata

-- `for rank, result in enumerate(results, start=n): result.rank = rank`
abbrev pub renumber : {S : Type 0} → ℕ → List (SearchResult S) → List (SearchResult S)
renumber n [] = []
renumber n (r ∷ results) = record r { rank = n } ∷ renumber (suc n) results
