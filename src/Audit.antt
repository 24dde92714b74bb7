-- ===== src/Audit.antt =====
-- The audit of a request by rules and models. `Deny` is the audit of one request, with the helpers on texts of `Texts`; its
-- models are called through the failover over profiles (`Failover`), the chunks of a long text (`Chunks`) under a budget of
-- work (`Budget`), several models at once (`Fusion`), and the decoder of their answers (`Output`).
mod Types
pub mod Texts
pub mod Failover
pub mod Chunks
pub mod Fusion
pub mod Budget
pub mod Output
pub mod Deny
pub use Types.*
