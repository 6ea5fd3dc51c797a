-- ===== src/Polling.antt =====
-- kbus_poll of kbus/kbus_main.c: what a Ksock is ready for.
use kbus.Prelude.{Bool, not, ◌&&◌, Option, none, some, ◌==◌, if◌then◌else◌}
use kbus.Ksock.Records.{Ksock}
use kbus.Device.{Dev}
use kbus.Sending.{poll_try_send_again}

-- `mask`: POLLIN and POLLRDNORM together, and POLLOUT and POLLWRNORM together.
pub record PollMask : Type 0 where
  pub readable : Bool
  pub writable : Bool

-- kbus_poll, on a file that is open for writing or not. Nothing is returned where it goes through
-- the null pointer that the Ksock has for a message.
unfoldable pub poll : Bool → Dev → Ksock → Option (Dev × PollMask)
poll may_write dev priv =
    let readable = not (priv.message_count == 0) in
    if may_write && priv.sending
    then elim priv.write.msg [
      | none ↦ none
      | some msg ↦
          let (dev', writable) = poll_try_send_again dev priv.id msg in
          some (dev', record { readable = readable; writable = writable })
    ]
    else some (dev, record { readable = readable; writable = may_write })
