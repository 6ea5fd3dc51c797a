-- ===== src/Tests/Settings.antt =====
-- The settings of the small bus, and its report to Ksock 1 of the replier bindings that there are.
use kbus.Prelude.{◌≡◌, refl, some, length}
use kbus.Errno.{success}
use kbus.Ksock.Records.{Ksock}
use kbus.Ksock.Queue.{queue_is_full, push_message}
use kbus.Device.{find_ksock, find_open_ksock, update_ksock}
use kbus.Recipients.Plan.{owner_is_full}
use kbus.Settings.{report_existing_binds, report_one}
use kbus.Settings.Announced.{report_existing_binds_all}
use kbus.Tests.Data.{bus, sender}

bus_reports : (report_existing_binds bus 1 bus.bound_message_list).1 ≡ success
unfolding report_existing_binds report_one owner_is_full find_ksock update_ksock queue_is_full
    push_message
bus_reports = refl

find_sender : find_open_ksock bus 1 ≡ some sender
unfolding find_ksock
find_sender = refl

report_existing_binds_all_example :
    (k : Ksock) × (find_open_ksock (report_existing_binds bus 1 bus.bound_message_list).0 1
      ≡ some k)
    × (length k.message_queue ≡ 2)
report_existing_binds_all_example =
    report_existing_binds_all bus 1 bus.bound_message_list sender find_sender refl bus_reports
