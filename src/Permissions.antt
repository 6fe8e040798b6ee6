-- ===== src/Permissions.antt =====
-- api/services/permissions.py: the scope of a restricted user, and the checks made with it.
pub mod Scope
pub mod Authorize
pub mod Listing
pub mod Grants
pub mod Resolve
pub mod Visible
pub mod Agreement
pub mod WholeScope
pub mod Exact
pub mod Regrant
pub mod GrantLaws
pub mod Levels
pub mod Capabilities
pub mod Revoke
pub mod TagItems
mod Examples
