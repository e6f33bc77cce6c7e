-- ===== src/Tests.antt =====
-- Concrete data and runs.
mod Data
mod OfSorting
mod OfFlush
mod OfFiles
mod OfManifest
mod OfSkipList
mod OfTree
mod OfSplit
mod OfOpen
mod OfThreads
mod OfFan
