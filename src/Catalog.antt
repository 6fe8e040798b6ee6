-- ===== src/Catalog.antt =====
-- The catalogue: the services of workspaces and of collections together, over the same tables.
pub mod Whole
pub mod Steps
pub mod Branches
pub mod Tree
mod Examples
