-- ===== src/Runtime/Reachable.antt =====
-- The logs that the operations of a runtime can make: crates/lemnos-runtime/src/runtime/events.rs,
-- with the changes of the log that lifecycle.rs and operations.rs make.
use lemnos.Prelude.{List, [], arith, map, refl, text_ord, ◌++◌, ◌∷◌}
use lemnos.Core.Event.{LemnosEvent, StateEvent}
use lemnos.Core.Interface.{interface_ord}
use lemnos.Core.State.{DeviceStateSnapshot}
use lemnos.Discovery.Inventory.{InventoryDiff, events}
use lemnos.Runtime.Bytes.{Sizes}
use lemnos.Runtime.Cursors.{record_inventory_events-IsLog, record_state-IsLog}
use lemnos.Runtime.EventLog.{
  EventLog, RuntimeConfig, empty_log, enforce_event_retention, record_inventory_events,
  record_state, take_events,
}
use lemnos.Runtime.Notifier.{notify_changed}
use lemnos.Runtime.Retention.{IsLog, enforce_event_retention-IsLog, take_events-IsLog}

-- A log that a runtime can have when `history` is the list of all events so far.
pub data Reachable (sizes : Sizes) : List LemnosEvent → EventLog → Type 0 where
  started : Reachable sizes [] empty_log
  cached :
      (config : RuntimeConfig) (state : DeviceStateSnapshot) (history : List LemnosEvent)
      (log : EventLog)
      → Reachable sizes history log
      → Reachable sizes
          (history ++ LemnosEvent.state (StateEvent.snapshot state) ∷ [])
          (record_state sizes config state log)
  recorded :
      (config : RuntimeConfig) (d : InventoryDiff) (history : List LemnosEvent) (log : EventLog)
      → Reachable sizes history log
      → Reachable sizes
          (history ++ map LemnosEvent.inventory (events d))
          (record_inventory_events sizes config d log)
  taken :
      (history : List LemnosEvent) (log : EventLog)
      → Reachable sizes history log
      → Reachable sizes history (take_events log).0
  configured :
      (config : RuntimeConfig) (history : List LemnosEvent) (log : EventLog)
      → Reachable sizes history log
      → Reachable sizes history (enforce_event_retention sizes config log)
  stopped :
      (history : List LemnosEvent) (log : EventLog)
      → Reachable sizes history log
      → Reachable sizes history (record log { event_notifier = notify_changed log.event_notifier })

stopped-IsLog :
    (sizes : Sizes) (history : List LemnosEvent) (log : EventLog)
    → IsLog sizes history log
    → IsLog sizes history (record log { event_notifier = notify_changed log.event_notifier })
unfolding IsLog notify_changed
stopped-IsLog sizes history log h = h

started-IsLog : (sizes : Sizes) → IsLog sizes [] empty_log
unfolding IsLog
started-IsLog sizes = (ground arith, refl, refl, ground arith)

-- Every log that the operations can make, in any order and with any configurations, keeps a suffix
-- of all events so far, counts its bytes, and has told the notifier of no event that is not there.
pub Reachable-IsLog :
    (sizes : Sizes) (history : List LemnosEvent) (log : EventLog)
    → Reachable sizes history log
    → IsLog sizes history log
Reachable-IsLog sizes _ _ Reachable.started = started-IsLog sizes
Reachable-IsLog sizes _ _ (Reachable.cached config state history log r) =
    record_state-IsLog sizes config state history log (Reachable-IsLog sizes history log r)
Reachable-IsLog sizes _ _ (Reachable.recorded config d history log r) =
    record_inventory_events-IsLog sizes config d history log (Reachable-IsLog sizes history log r)
Reachable-IsLog sizes _ _ (Reachable.taken history log r) =
    (take_events-IsLog sizes history log (Reachable-IsLog sizes history log r)).0
Reachable-IsLog sizes _ _ (Reachable.configured config history log r) =
    enforce_event_retention-IsLog sizes config history log (Reachable-IsLog sizes history log r)
Reachable-IsLog sizes _ _ (Reachable.stopped history log r) =
    stopped-IsLog sizes history log (Reachable-IsLog sizes history log r)
