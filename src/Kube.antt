-- ===== src/Kube.antt =====
-- The Kubernetes API as the program uses it, from the client library that is vendored beside it.
pub mod Objects
pub mod World
pub mod Client
pub mod Server
pub mod Spares
pub mod Watch
pub mod Memory
