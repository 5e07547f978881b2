-- ===== src/Examples.antt =====
-- The theorems at concrete inputs, and tests of the definitions.
mod Setting
mod Disk
mod Stores
mod Signatures
mod Requests
mod Letters
mod Restart
mod Concurrent
mod Startup
mod Paths
mod Page
mod Contract
mod Users
mod Retries
mod Chain
mod Settings
