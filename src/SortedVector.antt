-- ===== src/SortedVector.antt =====
-- What map.rs and set.rs of shed/sorted_vector_map/src have in common. Both files keep a vector in
-- strictly ascending order and carry the same code twice, once over entries that are compared by
-- their key and once over the values themselves. The modules below are over entries with a `key`.
pub mod Search
pub mod Sorted
pub mod Place
pub mod Update
pub mod Iter
pub mod Ascending
pub mod Merge
pub mod Sort
pub mod Extend
pub mod Extensional
pub mod Cut
pub mod Range
