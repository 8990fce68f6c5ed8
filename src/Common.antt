-- ===== src/Common.antt =====
-- include/mif/common: helpers of the framework.
pub mod Crc32
