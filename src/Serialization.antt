-- ===== src/Serialization.antt =====
-- include/mif/serialization: objects as text and back.
pub mod Json
pub mod Xml
