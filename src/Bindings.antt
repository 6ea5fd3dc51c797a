-- ===== src/Bindings.antt =====
-- Who is bound to which message names: the list of bindings of kbus/kbus_main.c, the calls that
-- change it, and what stays true of it.
pub mod Table
pub mod Calls
pub mod Unique
pub mod Owners
pub mod Found
