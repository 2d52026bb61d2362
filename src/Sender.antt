-- ===== src/Sender.antt =====
-- sendudp/sendudp.c, the kernel module of an access point.
pub mod Buffer
pub mod Collect
pub mod Report
