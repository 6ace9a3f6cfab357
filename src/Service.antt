-- ===== src/Service.antt =====
-- reward-service: the shares, blocks and rounds that it writes, and the two pools that it serves.
pub mod Database
pub mod Shares
pub mod Ranking
pub mod Blocks
