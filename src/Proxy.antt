-- ===== src/Proxy.antt =====
-- proxy/: the handler of the messages with its parts, and the adaptive limit on concurrency.
pub mod Adaptive
pub mod Images
pub mod Passthrough
pub mod Format
pub mod Handler
pub mod NewHandler
pub mod Stream
pub mod Hosts
pub mod Headers
