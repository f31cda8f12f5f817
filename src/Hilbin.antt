-- ===== src/Hilbin.antt =====
-- verification/cocotb/scripts/hilbin_vs_c.py and hilbin_check.py: captures, their repair and their
-- checks. Times are whole numbers of capture clock cycles, which is what a version 2 file holds.
pub mod Repair
pub mod Splice
pub mod Holds
pub mod Parse
pub mod Estimate
pub mod Segment
pub mod Replay
pub mod Batch
pub mod Thin
pub mod Check
pub mod Verdict
mod Tests
