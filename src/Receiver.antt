-- ===== src/Receiver.antt =====
-- EXP/receive.c, the collector of the measurements.
pub mod Read
pub mod Process
pub mod Pool
pub mod Flows
pub mod Decode
pub mod Format
