-- ===== src/Gateway/Serve.antt =====
-- `ServeHTTP` of internal/platform/gateway.go, stage by stage. A stage takes the run so far and
-- ends it by an error, or goes on with the next. What the source defers is done here when the rest
-- of the run has returned.
mod Admit
mod Forward
pub mod Accounts
pub mod Guard
pub mod Laws
mod Tests
unfoldable pub use Admit.*
unfoldable pub use Forward.*
