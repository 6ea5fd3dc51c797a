-- ===== src/Settings/Queries.antt =====
-- kbus/kbus_main.c: what a query gives after a setting.
use kbus.Prelude.{ℕ, ◌≡◌, ◌||◌, ◌≤◌, ◌==◌, ltb, if◌then◌else◌, arith}
use kbus.Errno.{ok, err, einval}
use kbus.Ksock.Records.{Ksock}
use kbus.Device.{Dev}
use kbus.Settings.{maxmsgsize, onlyonce, switch, query, as_number, abs_max_message_size}

-- A number that kbus_maxmsgsize accepts as a new maximum is what the next query gives; the maximum
-- is changed only then, and it stays from 100 to the absolute maximum if it was.
pub maxmsgsize_query :
    (dev : Dev) (n : ℕ)
    → 100 ≤ dev.max_message_size
    → dev.max_message_size ≤ abs_max_message_size
    → let dev' = (maxmsgsize dev n).0 in
      (100 ≤ dev'.max_message_size)
      × (dev'.max_message_size ≤ abs_max_message_size)
      × ((maxmsgsize dev' 0).1
          ≡ ok (if ltb n 100 || ltb abs_max_message_size n then dev.max_message_size else n))
unfolding maxmsgsize
maxmsgsize_query dev n low high = ground arith

-- Whatever kbus_onlyonce is called with, a query after it gives the value that was set, for 0 and 1,
-- and otherwise the value from before; it fails just for a number that is neither of these nor the
-- query.
pub onlyonce-query :
    (priv : Ksock) (n : ℕ)
    → let (priv', retval) = onlyonce priv n in
      ((onlyonce priv' query).1
        ≡ ok (if n == 0 then 0 else if n == 1 then 1 else as_number priv.messages_only_once))
      × (retval ≡ (
          if n == 0 || n == 1 || n == query
          then ok (as_number priv.messages_only_once)
          else err einval))
unfolding onlyonce switch
onlyonce-query priv n = ground arith
