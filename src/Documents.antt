-- ===== src/Documents.antt =====
-- api/services/documents.py: the documents' uploads, confirmations, reprocessing and deletion.
pub mod Keys
pub mod Content
pub mod Upload
pub mod Files
pub mod Calls
pub mod Life
pub mod Originals
pub mod Once
pub mod Streamed
pub mod Early
pub mod NoEarly
pub mod Deleted
mod Examples
