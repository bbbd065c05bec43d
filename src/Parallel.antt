-- ===== src/Parallel.antt =====
-- How the processes of a server are divided into groups, and the layers of the model among them.
pub mod RankLists
pub mod Blocks
pub mod Partition
pub mod CommGroup
pub mod Groups
pub mod Start
pub mod Membership
pub mod Init
pub mod Ring
pub mod Layers
