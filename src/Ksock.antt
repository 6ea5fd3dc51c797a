-- ===== src/Ksock.antt =====
-- `struct kbus_private_data` (a Ksock) of kbus/kbus_internal.h, the structures inside it, and the
-- functions of kbus/kbus_main.c that touch one Ksock only: its queue, its room and its lists of
-- replies. Wait queues and the PID are not modelled, and allocation succeeds.
pub mod Records
pub mod Queue
pub mod Replies
pub mod Validity
pub mod Room
