-- ===== src/Emmc.antt =====
-- The SD card driver of c/emmc.c: its commands and its clock.
pub mod Command
pub mod Clock
pub mod Messages
pub mod Device
pub mod Issue
pub mod Card
pub mod Blocks
pub mod Sd
