-- ===== src/Lib.antt =====
-- KBUS, a message bus in a Linux kernel module: the core of kbus/kbus_main.c, with the structures
-- of kbus/kbus_internal.h and kbus/linux/kbus_defns.h; the user space library libkbus/libkbus.c; and
-- the limpets, which join the buses of two machines (libkbus/limpet.c, utils/runlimpet.c).
--
-- A device (`Dev`, struct kbus_dev) has open Ksocks (`Ksock`, struct kbus_private_data) and
-- bindings of message names to Ksocks, as listener or as replier. A message that is sent goes to
-- every matching listener; a request goes to the one replier too, which owes a reply, and its
-- sender keeps a place in its own queue for that reply. Every call on the device holds the
-- device's mutex, so each operation is one function from a device, or from a Ksock, to the next.
--
-- Modules:
--   Prelude     shared names, Boolean tests, lists and bits over the native numbers
--   CString     the C string functions that the code calls
--   Errno       errors as values, and chains of functions that return them
--   Size        lengths of messages, growth of arrays
--   Message     message ids, messages and their flags
--   MsgIdMem    the outstanding requests of a Ksock (kbus_*_msg_id*)
--   Name        message names (kbus_*_message_name*)
--   Ksock       a Ksock's records, its queue (kbus_push_message, kbus_pop_message,
--               kbus_queue_is_full), the replies it owes, its validity and its room
--   Device      the device, its list of Ksocks, kbus_open
--   Recipients  kbus_find_replier, kbus_find_listeners and kbus_write_to_recipients: Search and
--               Plan are the code; Choice, Receive, Delivery, Copies, Refusal, Replying and Keeps
--               are what they do
--   Synthetic   the messages that KBUS makes itself
--   Unsent      Replier Unbind Events put aside for listeners that are full
--   Bindings    the list of bindings, and the calls BIND, UNBIND and REPLIER
--   Lifecycle   kbus_release and what it empties and forgets; kbus_open is in Device
--   Sending     kbus_send, kbus_discard and kbus_poll_try_send_again
--   Polling     kbus_poll
--   Settings    the calls that read or set one number, and the report of existing bindings
--   Header      struct kbus_message_header as bytes
--   Reading     kbus_nextmsg, kbus_lenleft and kbus_read; Unread, Rounds, Pieces, Next, Lengths and
--               Left are what they do
--   Writing     kbus_check_message_written and kbus_write; Accepted, Layout, Filling, Rounds, Ending, Places,
--               Twice, Again, Lasting, Calls, Wholes and Relayed are what they do
--   Ioctl       the switch of kbus_ioctl over these operations
--   Libkbus     the user space library: Messages, Calls and Transfers are the code; Sizes and Whole are
--               what they do, OnKbus and Receiving are the library on top of Ioctl and kbus_read
--   Limpet      Context, Amending, Setup and Wire are the code; Tables, Traffic, Replies and Dialogue
--               are what the amending does, Words, Events, Streams, Hello and Transfer the connection
--   Tests       runs on small inputs, and the theorems at them
--
-- A pointer to a Ksock is its id, and a pointer to a binding a number from `next_binding`, which
-- stands for the allocator. A list on the device is a list, in the order of the C list. Bytes
-- are numbers, a u32 keeps its wrap written out (`add_u32`, `sub_u32`), and a u32 in memory is
-- little-endian. isalnum, PAGE_SIZE and copy_from_user are the kernel's, parameters of the
-- functions that use them; copy_to_user is a flag that says whether it succeeds. To the library the
-- system's ioctl, read and write are parameters, functions on a state of the system; OnKbus takes
-- Ioctl for that ioctl. To a limpet the socket is a parameter (`Socket`), with `IsReliable` for what a
-- stream socket promises, and so are htonl and ntohl, with `IsByteOrder`. Loops are
-- structural recursion on the list that they walk, so no fuel is needed, but for that of
-- kbus_read, whose fuel is the number of parts that are left and one (`rounds`), as each round
-- ends a part or the loop, and those of kbus_write, whose fuel is eight rounds for its six parts
-- and, for the data, its number of parts and one, and those of the library over read and write, which
-- may go on for ever where the system has nothing to give; that of writing needs as many rounds as
-- there are bytes and one where each write takes something; a loop that adds to the list it walks takes
-- the list as it is at the start where what it adds is skipped.
--
-- Not modelled: failing allocation, reference counts, wait queues and wake-ups, the process id,
-- debug output and /proc reports (kbus/kbus_report.c); a failing copy of what is read or written; the
-- copies to and from user space of the arguments of a call; devices as kernel objects, so NEWDEVICE
-- is no request of Ioctl; opening, closing, waiting, printing and freeing in the library; the loop, the
-- sockets and the command line of utils/runlimpet.c. The libraries and tools in cppkbus, jkbus, python,
-- python3 and the rest of utils use these from outside.
pub mod Prelude
pub mod CString
pub mod Errno
pub mod Size
pub mod Message
pub mod MsgIdMem
pub mod Name
pub mod Ksock
pub mod Header
pub mod Device
pub mod Recipients
pub mod Synthetic
pub mod Unsent
pub mod Bindings
pub mod Lifecycle
pub mod Sending
pub mod Reading
pub mod Polling
pub mod Settings
pub mod Writing
pub mod Tests
pub mod Ioctl
pub mod Libkbus
pub mod Limpet
