-- ===== src/Vectors.antt =====
-- api/adapters/vector_store/pgvector.py: the rows of the table `chunks`, keyed by their id. The
-- column `document_id` and the key of `metadata` hold one value, which `upsert` writes to both. An
-- `executemany` is one transaction. The type of the embeddings is a parameter.
use embedbase.Prelude.{
  Bool, List, Option, String, [], false, filter_by, if◌then◌else◌, none, not, some, true, ℕ, ◌&&◌,
  ◌==◌, ◌∷◌,
}
use embedbase.Prelude.Dict.{Dict, get, put}

-- api/models/chunk.py: `Chunk` with the keys of its `metadata` that the worker reads
pub record Chunk : Type 0 where
  pub id : String
  pub text : String
  pub document_id : String
  pub chunk_index : ℕ
  pub page_number : Option ℕ
  pub heading_path : Option String
  pub tags : List String

pub record StoredChunk (V : Type 0) : Type 0 where
  pub collection_id : String
  pub document_id : String
  pub text : String
  pub tags : List String
  pub embedding : V
  pub embedding_model : Option String

abbrev pub holds : Option String → String → Bool
holds none model = false
holds (some m) model = m == model

module _ {V : Type 0} where
  -- `ON CONFLICT (id) DO UPDATE` keeps the collection of the row
  abbrev pub collection_kept : String → Option (StoredChunk V) → String
  collection_kept collection none = collection
  collection_kept collection (some row) = row.collection_id

  abbrev pub row_of : Dict (StoredChunk V) → String → Option String → Chunk → V → StoredChunk V
  row_of store coll model c v = record {
    collection_id = collection_kept coll (get store c.id);
    document_id = c.document_id;
    text = c.text;
    tags = c.tags;
    embedding = v;
    embedding_model = model;
  }

  unfoldable pub upsert_row :
      Dict (StoredChunk V) → String → Option String → Chunk → V → Dict (StoredChunk V)
  upsert_row store coll model c v = put store c.id (row_of store coll model c v)

  -- `zip(chunks, vectors, strict=True)` raises on unequal lengths, before anything is written
  unfoldable pub upsert :
      Dict (StoredChunk V)
      → String
      → Option String
      → List Chunk
      → List V
      → Option (Dict (StoredChunk V))
  upsert store collection model [] [] = some store
  upsert store collection model (c ∷ chunks) (v ∷ vectors) =
      upsert (upsert_row store collection model c v) collection model chunks vectors
  upsert store collection model [] (v ∷ vectors) = none
  upsert store collection model (c ∷ chunks) [] = none

  -- the keys of the rows that pass a test
  abbrev pub keys_where : (StoredChunk V → Bool) → Dict (StoredChunk V) → List String
  keys_where p [] = []
  keys_where p ((k, row) ∷ store) =
      let rest = keys_where p store in if p row then k ∷ rest else rest

  unfoldable pub at_model : String → String → String → StoredChunk V → Bool
  at_model collection document model row =
      row.collection_id == collection
      && row.document_id == document
      && holds row.embedding_model model

  unfoldable pub document_chunk_ids_at_model :
      Dict (StoredChunk V) → String → String → String → List String
  document_chunk_ids_at_model store collection document model =
      keys_where (at_model collection document model) store

  abbrev pub of_document : String → String → StoredChunk V → Bool
  of_document collection document row =
      row.collection_id == collection && row.document_id == document

  abbrev retag : Bool → List String → StoredChunk V → StoredChunk V
  retag true tags row = record row { tags = tags }
  retag false tags row = row

  unfoldable pub set_document_tags :
      Dict (StoredChunk V) → String → String → List String → Dict (StoredChunk V)
  set_document_tags [] collection document tags = []
  set_document_tags ((k, row) ∷ store) collection document tags =
      (k, retag (of_document collection document row) tags row)
      ∷ set_document_tags store collection document tags

  unfoldable pub delete_document : Dict (StoredChunk V) → String → String → Dict (StoredChunk V)
  delete_document store collection document =
      filter_by (λ e. not (of_document collection document e.1)) store

  unfoldable pub delete_collection : Dict (StoredChunk V) → String → Dict (StoredChunk V)
  delete_collection store collection = filter_by (λ e. not (e.1.collection_id == collection)) store
