-- ===== src/Tests.antt =====
-- Runs of the models on concrete inputs, and the theorems at concrete inputs.
pub mod Packets
pub mod Keys
pub mod Ticks
pub mod Access
pub mod Fits
pub mod Queues
pub mod Runs
pub mod Stores
pub mod Tools
pub mod Clocks
pub mod Worlds
pub mod Measures
pub mod Cuts
pub mod Repeats
