-- ===== src/Scenarios.antt =====
-- Small runs of the program at concrete inputs, to which the theorems are applied.
pub mod Asking
pub mod Backend
pub mod Changes
pub mod Commanding
pub mod Diffs
pub mod Display
pub mod Files
pub mod Looping
pub mod Plans
pub mod Selecting
pub mod Turns
pub mod Usage
