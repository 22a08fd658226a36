-- ===== src/Api.antt =====
-- ceilometer/api: who may see what, and the queries of the API.
pub mod Rbac
pub mod Query
pub mod ComplexQuery
