-- ===== src/Tags/Examples.antt =====
-- The theorems on tags at one collection with one document, whose only chunk has no tags yet.
use embedbase.Collections.{require_collection}
use embedbase.Prelude.{
  Bool, List, String, [], all_of, none, not, refl, some, true, ℕ, ◌||◌, ◌∷◌, ◌≡◌,
}
use embedbase.Prelude.Dict.{Dict}
use embedbase.Tables.{Db, sync_tags_task}
use embedbase.Tags.{
  Tagged, assign, assign_collection_tag, on_collection, require_tag, sync_collection,
}
use embedbase.Tags.Effective.{effective_document_tags, names_of, sync_document_tags}
use embedbase.Tags.Eventual.{TagSteps, no_step, performs, step_more, tags_collection, tags_carried}
use embedbase.Tags.Linked.{Linked}
use embedbase.Tags.Synced.{fresh, in_sync}
use embedbase.Vectors.{StoredChunk, set_document_tags}
use embedbase.Workspaces.{is_active}

abbrev library : Db
library = record {
  workspaces =
      record {
        id = "w1";
        name = "Law";
        description = "";
        color = "";
        icon = "";
        created_at = "2026";
        updated_at = "2026";
      }
      ∷ [];
  collections =
      record {
        id = "c1";
        workspace_id = "w1";
        name = "Cases";
        description = "";
        color = "";
        icon = "";
        created_at = "2026";
        updated_at = "2026";
      }
      ∷ [];
  documents =
      record {
        id = "d1";
        collection_id = "c1";
        filename = "memo.txt";
        file_type = ".txt";
        file_size = none;
        chunk_count = some 1;
        created_at = 1;
        status = none;
        embedding_model = none;
        storage_backend = none;
        expires_at = none;
        original_filename = none;
        original_file_type = none;
        original_file_size = none;
      }
      ∷ [];
  permissions = [];
}

abbrev untagged : Tagged
untagged = record {
  db = library;
  tags = record { id = "t1"; workspace_id = "w1"; name = "urgent"; color = none } ∷ [];
  assignments = [];
  sent = [];
}

abbrev memo : List String → Dict (StoredChunk ℕ)
memo tags =
    (
      "k1",
      record {
        collection_id = "c1";
        document_id = "d1";
        text = "hi";
        tags = tags;
        embedding = 7;
        embedding_model = none;
      },
    )
    ∷ []

abbrev tagged : Tagged
tagged = record untagged {
  assignments = record { kind = on_collection; entity_id = "c1"; tag_id = "t1" } ∷ [];
}

abbrev waiting : Tagged
waiting = record tagged { sent = sync_tags_task "d1" "c1" ∷ [] }

untagged-Linked : Linked untagged (memo [])
unfolding in_sync fresh effective_document_tags names_of
untagged-Linked = record { one_row = (refl, tt); all_synced = refl }

tag_and_perform : TagSteps untagged (memo []) tagged (memo ("urgent" ∷ []))
unfolding assign_collection_tag require_collection require_tag sync_collection assign
    sync_document_tags effective_document_tags names_of set_document_tags
tag_and_perform =
    step_more untagged waiting tagged (memo []) (memo []) (memo ("urgent" ∷ []))
      (tags_collection untagged (memo []) "w1" "c1" "t1")
      (step_more waiting tagged tagged (memo []) (memo ("urgent" ∷ [])) (memo ("urgent" ∷ []))
        (performs waiting (memo []) [] [] "d1" "c1" refl) (no_step tagged (memo ("urgent" ∷ []))))

abbrev active_fresh : Tagged → Dict (StoredChunk ℕ) → Bool
active_fresh s store = all_of (λ d. not (is_active d) || fresh s store d) s.db.documents

tags_carried_example : active_fresh tagged (memo ("urgent" ∷ [])) ≡ true
tags_carried_example =
    tags_carried untagged tagged (memo []) (memo ("urgent" ∷ [])) untagged-Linked tag_and_perform
      refl
