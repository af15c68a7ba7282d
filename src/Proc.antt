-- ===== src/Proc.antt =====
-- What Assignment_2/myps.c and mytop.c read of a process, in the two programs alike: the tokens of
-- /proc/pid/stat, the rows of /proc/pid/status, the bytes of /proc/pid/cmdline, percentages and times.
pub mod Host
pub mod Percent
pub mod Token
pub mod Number
pub mod Status
pub mod State
pub mod Times
pub mod Command
mod Tests
