-- ===== src/Tests.antt =====
-- Runs of the model on inputs of the sources' own tests, and the theorems at concrete inputs.
mod Parsing
mod Formatting
mod Disks
mod Keys
mod Cycles
mod Fixes
mod Overriding
mod Suppressions
mod Blocks
mod Bodies
mod Trailing
mod Repeats
mod Revisions
