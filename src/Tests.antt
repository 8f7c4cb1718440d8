-- ===== src/Tests.antt =====
-- Runs and concrete instances: each theorem of the results on a small server with a Redis in a list.
pub mod Data
pub mod Storage
pub mod Limits
pub mod Log
pub mod Blocks
pub mod Buffers
pub mod Pointers
pub mod Requests
pub mod Program
pub mod Libraries
pub mod Clients
pub mod Commands
pub mod Service
pub mod Threads
pub mod Runs
pub mod Expiry
