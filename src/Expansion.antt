-- ===== src/Expansion.antt =====
-- api/services/expansion.py: each hit grows into the span of chunks around it.
pub mod Merge
pub mod Budget
pub mod Trimmed
pub mod Spans
pub mod Emitted
mod Examples
