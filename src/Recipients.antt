-- ===== src/Recipients.antt =====
-- Who gets a message, and the sending of it: kbus_find_replier, kbus_find_listeners and
-- kbus_write_to_recipients of kbus/kbus_main.c.
pub mod Search
pub mod Plan
pub mod Choice
pub mod Receive
pub mod Delivery
pub mod Copies
pub mod Refusal
pub mod Replying
pub mod Keeps
