-- ===== src/Moe.antt =====
-- chitu/moe/load_balancer/planner.py: which expert is in which slot of which rank.
pub mod Placement
pub mod Default
pub mod Cells
pub mod Swap
pub mod Exchange
pub mod Actions
