-- ===== src/Pages.antt =====
-- The pages under web/app as the data that they show: each row, card and label, without the mark-up.
pub mod Ranking
pub mod Miner
pub mod Stats
pub mod Tables
pub mod Loading
pub mod Site
