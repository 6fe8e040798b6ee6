-- ===== src/Lib.antt =====
-- Embedbase: a model of the service's own logic and the theorems about it.
--
-- Embedbase keeps documents in collections, collections in workspaces, and answers searches over
-- their chunks. Users hold grants on the resources; a request carries a principal, and every
-- operation is checked against the principal's scope before it touches a row.
--
-- The parts and their files (paths from the repository's root):
--   Prelude, Prelude/*    lists, options, dictionaries and tests that the parts share.
--   Http                  a handler returns a value or raises HTTPException(status, detail).
--   Auth                  api/services/auth.py: Principal.
--   Tables                api/tables/*.py: the rows that the services read, as lists.
--   Permissions/Scope     api/services/permissions.py: _Scope and _resolve_scope.
--   Permissions/Authorize the authorize_* checks and the capabilities.
--   Permissions/Listing   the readable_*, writable_* and filter_* functions.
--   Permissions/Grants    grant_permission, revoke_permission, grant_creator_access.
--   Permissions/Resolve, Visible, Exact, Levels: what the scope decides, in terms of the rows.
--   Permissions/Agreement, WholeScope, TagItems: the filters and the checks agree.
--   Permissions/Regrant, GrantLaws, Revoke, Capabilities: the writes and the capabilities.
--   Access, Access/Order  api/services/access.py: policies and their composition.
--   Workspaces            api/services/workspaces.py, and Collections: api/services/collections.py.
--   Catalog/*             the invariant of those tables over any calls, the answers, the tree.
--   Chunks                api/models/search.py: a search result.
--   Expansion/*           api/services/expansion.py: windows, the budget of a span, the walk.
--   Search/*              api/adapters/reranker/reorder.py, and of api/services/search.py the
--                         filters, the ranking by BM25 and the fusion of collections; floats
--                         are an ordered type.
--   RateLimit/*           api/services/mcp/rate_limit.py: the token bucket.
--   Gate/*                api/services/mcp/middleware.py: authentication and quota of a request.
--   Vectors               api/adapters/vector_store/pgvector.py: the rows of the table of chunks.
--   Worker/Throttle       worker/tasks.py: _RpmLimiter; Window and Paced are about its windows.
--   Worker/Embed          _embed_and_store; Stored and Resume are about runs after stopped runs.
--   Worker/Jobs           _claim_job, the ends of ingest_document, the pause, the retry sweep;
--                         JobRows, Deliveries, Done and Sweeps are about any order of these.
--   Documents/Content     api/services/upload.py: validate_content, and Upload and Streamed: the
--                         size guard of a stream.
--   Documents/Files       what the calls of api/services/documents.py share, and the contract of a
--                         backend of api/services/storage.py.
--   Documents/Calls       the uploads, Life: confirmation, reprocessing, status and deletion,
--                         Originals: the original source file, Keys: the keys of the objects.
--   Documents/Once, Early, NoEarly, Deleted: what sequences of those calls leave.
--   Parsers               api/services/ingestion.py and api/adapters/parsers/txt.py: the segments of
--                         a text; Windows and Packing are about them.
--   Tags                  api/services/tags.py and api/services/tag_bridge.py: the assignments and
--                         the tasks they send; Tags/Effective: the task sync_document_tags;
--                         Changes, Synced, Linked and Eventual: any order of calls and tasks.
--
-- The correspondence: a query that selects rows is a search of a list; a set or a dictionary of
-- Python is a list of which only membership or lookup is read; an operation that writes returns
-- the tables it leaves beside its result. Ids that uuid4 makes and times are arguments. Every
-- function here is total by structural recursion, but the loop of _fit_budget, which runs on fuel:
-- the length of the span, since each round drops a chunk, that of sliding_window, whose rounds are
-- at most one for each token since its step is positive, and the loop of
-- _RpmLimiter.throttle, whose 1201 rounds of 50 milliseconds at least let a minute pass. Time, the
-- embedding adapter and the broker are parameters: what sleeping does to the clock, the answer of
-- each call of the adapter, whether a run is stopped after an upsert, and whether the broker answers.
-- The executions of a job interleave at the reads of its claim, the commit, the heartbeats and the
-- end; heartbeats lapse and workers are killed at any time. The token bucket counts in exact units
-- (a tick of the clock refills rpm of them), where the source rounds floats.
-- `IsKeyed` states the primary keys of the tables, and `IsValid` the constraints of the table of
-- grants (its primary key and permissions_user_resource_unique); `IsWhole` those of workspaces,
-- collections and documents with their references.
--
-- Not modelled: the SQL itself, transactions and concurrency of the database, the HTTP routers,
-- the other parsers, the searches of the vector store, the worker's deletion and purge, the
-- renaming, deletion and merging of tags, users, and the adapters of third-party services. The
-- broker takes each task of a change of tags, and a task that writes tags ends without an error:
-- a refused send after the commit, or a task whose retries are over, is outside the model.
pub mod Prelude
pub mod Http
pub mod Auth
pub mod Tables
pub mod Parsers
pub mod Permissions
pub mod Documents
pub mod Vectors
pub mod Tags
pub mod Worker
pub mod Workspaces
pub mod Collections
pub mod Catalog
pub mod Chunks
pub mod Expansion
pub mod RateLimit
pub mod Gate
pub mod Search
pub mod Access
