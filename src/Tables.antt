-- ===== src/Tables.antt =====
-- The tables of api/tables/*.py that the modelled services read and write, as lists of rows in the
-- order in which a query returns them. Columns that no modelled operation reads are left out.
use embedbase.Prelude.{
  Bool, List, Option, String, arith, eq_refl, false, find_by, refl, true, ℕ, ◌&&◌, ◌==◌, ◌↔◌, ◌≡◌,
}

pub record Workspace : Type 0 where
  pub id : String
  pub name : String
  pub description : String
  pub color : String
  pub icon : String
  pub created_at : String
  pub updated_at : String

pub record Collection : Type 0 where
  pub id : String
  pub workspace_id : String
  pub name : String
  pub description : String
  pub color : String
  pub icon : String
  pub created_at : String
  pub updated_at : String

-- The times of documents and jobs are numbers, in the order of the stored ones. `status` is NULL
-- for an active document.
pub record Document : Type 0 where
  pub id : String
  pub collection_id : String
  pub filename : String
  pub file_type : String
  pub file_size : Option ℕ
  pub chunk_count : Option ℕ
  pub created_at : ℕ
  pub status : Option String
  pub embedding_model : Option String
  pub storage_backend : Option String
  pub expires_at : Option ℕ
  pub original_filename : Option String
  pub original_file_type : Option String
  pub original_file_size : Option ℕ

-- `job_records.status`, the strings that the code writes
pub data JobStatus : Type 0 where
  pending processing done failed rate_limited : JobStatus

pub record Job : Type 0 where
  pub job_id : String
  pub document_id : String
  pub collection_id : String
  pub filename : String
  pub file_type : String
  pub status : JobStatus
  pub chunk_count : Option ℕ
  pub created_at : ℕ
  pub updated_at : ℕ

-- `Level` and `ResourceType`, the literals of api/services/permissions.py
pub data Level : Type 0 where
  read write : Level

pub data ResourceType : Type 0 where
  workspace collection document capability : ResourceType

pub record Grant : Type 0 where
  pub id : String
  pub user_id : String
  pub resource_type : ResourceType
  pub resource_id : String
  pub level : Level
  pub created_at : String

pub record Db : Type 0 where
  pub workspaces : List Workspace
  pub collections : List Collection
  pub documents : List Document
  pub permissions : List Grant

-- what the API and the worker send to the broker, by the names of api/services/tasks.py
pub data Task : Type 0 where
  ingest_task : String → String → String → String → String → Task
  delete_task : String → String → Task
  sync_tags_task : String → String → Task

unfoldable pub same_status : JobStatus → JobStatus → Bool
same_status pending pending = true
same_status processing processing = true
same_status done done = true
same_status failed failed = true
same_status rate_limited rate_limited = true
same_status _ _ = false

abbrev pub is_write : Level → Bool
is_write write = true
is_write read = false

abbrev pub is_read : Level → Bool
is_read read = true
is_read write = false

unfoldable pub same_type : ResourceType → ResourceType → Bool
same_type workspace workspace = true
same_type collection collection = true
same_type document document = true
same_type capability capability = true
same_type _ _ = false

-- The queries by primary key that several services make.
abbrev pub collection_row : Db → String → Option Collection
collection_row db k = find_by (λ r. r.id == k) db.collections

abbrev pub document_row : Db → String → Option Document
document_row db k = find_by (λ r. r.id == k) db.documents

abbrev pub workspace_row : Db → String → Option Workspace
workspace_row db k = find_by (λ r. r.id == k) db.workspaces

pub same_type_iff : (a b : ResourceType) → (same_type a b ≡ true) ↔ (a ≡ b)
unfolding same_type
same_type_iff a b = ground arith

-- The rows of one user for one resource; `permissions_user_resource_unique` allows one at most.
unfoldable pub same_target : String → ResourceType → String → Grant → Bool
same_target user t k g = g.user_id == user && same_type g.resource_type t && g.resource_id == k

pub same_target_self : (g : Grant) → same_target g.user_id g.resource_type g.resource_id g ≡ true
unfolding same_target
same_target_self g = ground (
  arith,
  eq_refl g.user_id,
  (same_type_iff g.resource_type g.resource_type).1 refl,
  eq_refl g.resource_id,
)
