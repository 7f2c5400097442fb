-- ===== src/Storage.antt =====
pub mod Page
pub mod Disk
pub mod Pool
