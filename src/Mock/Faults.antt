-- ===== src/Mock/Faults.antt =====
-- crates/lemnos-mock/src/faults.rs: the errors that a test queues for the operations of a device.
use lemnos.Prelude.{
  List, Map, Option, Text, [], if◌then◌else◌, insert, is_empty, lookup, map, none, remove, some,
  text_ord, ◌++◌, ◌∷◌,
}
use lemnos.Bus.Error.{BusError}
use lemnos.Core.Ids.{DeviceId}
use lemnos.Core.Interface.{interface_ord}
use lemnos.Drivers.UsbStats.{number_ord}

pub data MockFaultStep : Type 0 where
  timeout : Text → MockFaultStep
  disconnect : Text → MockFaultStep
  transport_failure : Text → Text → MockFaultStep
  error : Text → BusError → MockFaultStep

-- `MockFaultStep::into_entry`.
abbrev pub into_entry : DeviceId → MockFaultStep → Text × BusError
into_entry id (MockFaultStep.timeout operation) = (operation, BusError.timeout id operation)
into_entry id (MockFaultStep.disconnect operation) = (operation, BusError.disconnected id)
into_entry id (MockFaultStep.transport_failure operation reason) =
    (operation, BusError.transport_failure id operation reason)
into_entry id (MockFaultStep.error operation e) = (operation, e)

-- `MockFaultScript::into_entries`, of the script's steps.
abbrev pub into_entries : DeviceId → List MockFaultStep → List (Text × BusError)
into_entries id steps = map (into_entry id) steps

-- `unwrap_or_default` of a collection.
abbrev pub or_empty : {A : Type 0} → Option (List A) → List A
or_empty none = []
or_empty (some xs) = xs

abbrev pub Queues : Type 0
Queues = Map Text (List BusError)

abbrev pub MockFaultRegistry : Type 0
MockFaultRegistry = Map DeviceId Queues

-- `MockFaultRegistry::push`.
unfoldable pub push : DeviceId → Text → BusError → MockFaultRegistry → MockFaultRegistry
push id operation e faults =
    let queues = or_empty (lookup id faults) in
    insert id (insert operation (or_empty (lookup operation queues) ++ e ∷ []) queues) faults

-- `VecDeque::pop_front`: the element, and what is left.
abbrev pub first : List BusError → Option BusError
first [] = none
first (e ∷ es) = some e

abbrev pub rest_of : List BusError → List BusError
rest_of [] = []
rest_of (e ∷ es) = es

-- The queues of a device and the devices, with an empty one removed.
unfoldable pub put_queue : Text → List BusError → Queues → Queues
put_queue operation queue queues =
    if is_empty queue then remove operation queues else insert operation queue queues

unfoldable pub put_queues : DeviceId → Queues → MockFaultRegistry → MockFaultRegistry
put_queues id queues faults = if is_empty queues then remove id faults else insert id queues faults

-- `MockFaultRegistry::take`.
unfoldable pub take : DeviceId → Text → MockFaultRegistry → Option BusError × MockFaultRegistry
unfolding put_queue put_queues
take id operation faults = elim (lookup id faults) [
  | none ↦ (none, faults)
  | some queues ↦ elim (lookup operation queues) [
    | none ↦ (none, faults)
    | some queue ↦ (first queue, put_queues id (put_queue operation (rest_of queue) queues) faults)
  ]
]

-- `MockFaultRegistry::clear_device`.
abbrev pub clear_device : DeviceId → MockFaultRegistry → MockFaultRegistry
clear_device id faults = remove id faults
