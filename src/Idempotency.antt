-- ===== src/Idempotency.antt =====
-- api/internal/idempotency/store.go: the records, and the interface that the three stores implement.
pub mod Map
pub mod Memory
pub mod File
pub mod Postgres
pub mod Defs
pub use Defs.{Record, IsDated, live, Store, IsLawful}
