-- ===== src/Tests/Bindings.antt =====
-- Bindings on the small bus: Ksock 2 is the replier for `$.A`, and Ksock 3 becomes that of `$.*`.
use kbus.Prelude.{[], ◌∷◌, arith}
use kbus.Bindings.Table.{remember_binding}
use kbus.Bindings.Unique.{OneReplier, remember_binding-OneReplier}
use kbus.Device.{Dev}
use kbus.Tests.Data.{name_a, star, bus, bind_of}

abbrev quiet_bus : Dev
quiet_bus = record bus { bound_message_list = bind_of 2 3 0 name_a ∷ bind_of 1 2 1 name_a ∷ [] }

quiet_bus-OneReplier : OneReplier quiet_bus.bound_message_list
quiet_bus-OneReplier n name = ground (arith)

remember_binding-OneReplier_example :
    OneReplier (remember_binding quiet_bus 3 1 3 star).0.bound_message_list
remember_binding-OneReplier_example =
    remember_binding-OneReplier quiet_bus 3 1 3 star quiet_bus-OneReplier
