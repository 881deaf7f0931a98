-- ===== src/Examples.antt =====
-- Each theorem at a concrete input, with the runs and the data that its hypotheses ask for.
pub mod Logs
pub mod Keys
pub mod Segments
pub mod Writes
pub mod Runs
pub mod Sequences
pub mod Filters
pub mod Versions
pub mod Plans
