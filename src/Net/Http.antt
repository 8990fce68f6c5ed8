-- ===== src/Net/Http.antt =====
-- The HTTP stack of include/mif/net/http and src/mif/net/http.
pub mod Url
pub mod Codes
pub mod OutputPack
pub mod Routing
pub mod Target
pub mod Request
pub mod Session
pub mod WebService
pub mod ServletSession
pub mod Servlet
pub mod ParamPack
