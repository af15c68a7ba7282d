-- ===== src/Ps.antt =====
-- Assignment_2/myps.c: options, the processes that are listed, and the table that is printed.
pub mod Options
pub mod Table
pub mod Select
pub mod Record
mod Tests
