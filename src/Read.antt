-- ===== src/Read.antt =====
-- The read side: the index of a file, the iterators over its events, the chain of files, the filter of
-- events and the tallies of the occupancy scan.
mod Tests
mod FileTests
mod OpenTests
pub mod Filter
pub mod Inner
pub mod Located
pub mod Iter
pub mod Chain
pub mod Occupancy
