-- ===== src/Vision.antt =====
-- vision/: the circuit breaker, the pool of providers, and the clients that the providers are.
pub mod Breaker
pub mod Pool
pub mod Clients
