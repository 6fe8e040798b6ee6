-- ===== src/Documents/Keys.antt =====
-- api/services/documents.py: the keys of a document's stored objects.
use embedbase.Prelude.{String, append}

unfoldable pub document_key : String → String → String → String
document_key col_id doc_id ext = append col_id (append "/" (append doc_id ext))

unfoldable pub original_key : String → String → String → String
original_key col_id doc_id ext = append col_id (append "/" (append doc_id (append ".orig" ext)))
