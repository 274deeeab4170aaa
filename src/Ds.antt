-- ===== src/Ds.antt =====
-- The data structures of fram/module/ds: the search trees and the word tree.
pub mod Entry
pub mod SortedMap
pub mod Stree
pub mod Rbtree
mod Tests
pub mod Trie
