-- ===== src/Top.antt =====
-- Assignment_2/mytop.c: the order of the processes, and the keys.
pub mod Bubble
pub mod Sort
pub mod Record
pub mod Keys
pub mod Columns
pub mod Screen
pub mod Summary
mod Tests
