-- ===== src/Lscpu.antt =====
-- Assignment_2/mylscpu.c: what is read from /proc/cpuinfo and /sys, and how a long value is printed.
pub mod Cpu
pub mod System
pub mod Terminal
mod Tests
