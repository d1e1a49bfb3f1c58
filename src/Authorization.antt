-- ===== src/Authorization.antt =====
-- src/aipy/modules/authorization: permission codes, policies, the default-deny service and the
-- roles that policies come from.
pub mod Permission
pub mod Policy
pub mod Service
pub mod Catalogue
pub mod Repository
