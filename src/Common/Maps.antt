-- ===== src/Common/Maps.antt =====
-- The standard library's maps. `HashMap` leaves its order open: here a list of entries with
-- distinct keys. `BTreeMap` is the list of its entries in the order of the keys, which is the
-- order of the code points for texts.
pub mod Hash
pub mod Tree
pub mod Sorted
