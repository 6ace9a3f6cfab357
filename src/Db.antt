-- ===== src/Db.antt =====
-- web/lib/db.ts: the connection pool, and the functions that query it, a module each.
pub mod Outcome
pub mod Connection
pub mod Board
pub mod Miner
pub mod Stats
pub mod Blocks
