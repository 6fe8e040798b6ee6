-- ===== src/Search.antt =====
-- The order of search results: api/adapters/reranker/reorder.py and the filters and ranking of
-- api/services/search.py.
pub mod Sorting
pub mod Rerank
pub mod Ranking
pub mod Laws
pub mod Fusion
mod Examples
