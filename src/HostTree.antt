-- ===== src/HostTree.antt =====
-- modules/renter/hostdb/hosttree: the weighted tree of hosts (Node), the tree with its index and
-- blacklist (Tree), and one tree for each hostdb profile (Trees).
pub mod Node
pub mod Index
pub mod Tree
pub mod Random
pub mod Trees
pub mod Samples
pub mod Tests
