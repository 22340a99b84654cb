-- ===== src/Tests.antt =====
-- The theorems at concrete inputs, and runs of the definitions.
mod Fractions
mod Breaker
mod Pool
mod Adaptive
mod Messages
mod Handler
mod Config
mod Clients
mod Caches
mod Cli
mod Server
mod Start
mod Logging
mod Answers
mod Stream
mod Doctor
mod Inspection
mod Wizard
mod Wire
