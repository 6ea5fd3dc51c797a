-- ===== src/Tests.antt =====
-- Concrete runs of the models of kbus/kbus_main.c, libkbus and the limpets, and their theorems at
-- concrete inputs.
pub mod Data
mod Ksocks
mod Sending
mod Bindings
mod Leaving
mod Settings
mod Reading
mod Writing
mod Libkbus
mod Limpet
