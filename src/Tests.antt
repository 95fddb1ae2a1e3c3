-- ===== src/Tests.antt =====
-- The theorems applied to concrete inputs, and runs of the code on such.
mod Json
pub mod Store
mod Reporter
mod Threads
pub mod Api
mod Readers
mod Format
pub mod Kubernetes
mod Base64
pub mod Oauth2
mod Configuration
mod Main
mod Thread
