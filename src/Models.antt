-- ===== src/Models.antt =====
-- The base models (src/tortoise_extended/models) over the object-relational mapper.
pub mod Orm
pub mod Hierarchy
pub mod SoftDelete
pub mod GraphNode
pub mod EventStream
pub mod Cacheable
