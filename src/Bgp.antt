-- ===== src/Bgp.antt =====
-- internal/bgp: the routing table and its store.
pub mod Trie
pub mod Table
pub mod Store
pub mod Sample
mod Tests
