-- ===== src/Service.antt =====
-- The services of include/mif/service and src/mif/service: the locator, the two pools, the factory,
-- and the count of references.
pub mod Locator
pub mod Query
pub mod Counter
pub mod Factory
pub mod Pool
pub mod PerThreadPool
