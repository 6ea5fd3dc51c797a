-- ===== src/Libkbus.antt =====
-- The library for programs that use KBUS: libkbus/libkbus.c with the inline functions of
-- libkbus/kbus.h and kbus/linux/kbus_defns.h.
pub mod Messages
pub mod Sizes
pub mod Calls
pub mod Transfers
pub mod Whole
pub mod OnKbus
pub mod Receiving
