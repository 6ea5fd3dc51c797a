-- ===== src/Limpet.antt =====
-- Limpets, which pass messages between two KBUS devices: libkbus/limpet.c and utils/runlimpet.c.
pub mod Context
pub mod Amending
pub mod Setup
pub mod Tables
pub mod Traffic
pub mod Replies
pub mod Dialogue
pub mod Wire
pub mod Words
pub mod Streams
pub mod Events
pub mod Transfer
pub mod Hello
