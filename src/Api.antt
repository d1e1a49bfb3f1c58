-- ===== src/Api.antt =====
-- apps/api: the repositories behind /api/v1, their errors, and the database that they work on.
pub mod Errors
pub mod Rows
pub mod Store
pub mod Preconditions
pub mod Flush
pub mod Boards
pub mod ContentActions
pub mod SideEffects
pub mod UrlImport
pub mod Uploads
pub mod Creation
pub mod Listings
pub mod TaskActions
pub mod Sessions
pub mod Quotas
pub mod Fixtures
