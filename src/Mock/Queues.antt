-- ===== src/Mock/Queues.antt =====
-- The fault registry as one first-in, first-out queue for each device and operation:
-- crates/lemnos-mock/src/faults.rs.
use lemnos.Prelude.{
  Bool, Bool-cases, List, Option, Option-cases, Text, [], ap, arith, false, if◌then◌else◌, inl, inr,
  lookup, lookup-insert, lookup-remove, none, refl, same, same-eq, same_refl, some, subst, sym,
  text_ord, true, ◌&&◌, ◌++◌, ◌∙◌, ◌∷◌, ◌≡◌, ◌⊎◌,
}
use lemnos.Bus.Error.{BusError}
use lemnos.Core.Ids.{DeviceId}
use lemnos.Core.Interface.{interface_ord}
use lemnos.Drivers.UsbStats.{number_ord}
use lemnos.Mock.Faults.{
  MockFaultRegistry, Queues, first, or_empty, push, put_queue, put_queues, rest_of, take,
}

-- The errors that wait for an operation of a device.
abbrev pub queue_of : MockFaultRegistry → DeviceId → Text → List BusError
queue_of faults id operation = or_empty (lookup operation (or_empty (lookup id faults)))

-- Pushing an error appends it to the queue of its device and operation and changes no other queue.
pub queue_of-push :
    (id id' : DeviceId) (operation operation' : Text) (e : BusError) (faults : MockFaultRegistry)
    → queue_of (push id operation e faults) id' operation' ≡ (
        if same id' id && same operation' operation
        then queue_of faults id' operation' ++ e ∷ []
        else queue_of faults id' operation')
unfolding push
queue_of-push id id' operation operation' e faults = elim (Bool-cases (same id' id)) [
  | inr d ↦ simp (lookup-insert, d)
  | inl d ↦ elim (Bool-cases (same operation' operation)) [
    | inr o ↦ rw (same-eq id' id d) (simp (lookup-insert, same_refl id, o))
    | inl o ↦
        rw (same-eq id' id d, same-eq operation' operation o)
          (simp (lookup-insert, same_refl id, same_refl operation))
  ]
]

lookup-put_queue :
    (operation operation' : Text) (queue : List BusError) (queues : Queues)
    → or_empty (lookup operation' (put_queue operation queue queues))
      ≡ (if same operation' operation then queue else or_empty (lookup operation' queues))
unfolding put_queue
lookup-put_queue operation operation' [] queues =
    rw (lookup-remove operation operation' queues) (ground arith)
lookup-put_queue operation operation' (e ∷ es) queues =
    rw (lookup-insert operation operation' (e ∷ es) queues) (ground arith)

lookup-put_queues :
    (id id' : DeviceId) (queues : Queues) (faults : MockFaultRegistry)
    → or_empty (lookup id' (put_queues id queues faults))
      ≡ (if same id' id then queues else or_empty (lookup id' faults))
unfolding put_queues
lookup-put_queues id id' [] faults = rw (lookup-remove id id' faults) (ground arith)
lookup-put_queues id id' (q ∷ qs) faults = rw (lookup-insert id id' (q ∷ qs) faults) (ground arith)

queue_of-put :
    (id id' : DeviceId) (operation operation' : Text) (queue : List BusError) (queues : Queues)
    (faults : MockFaultRegistry)
    → lookup id faults ≡ some queues
    → queue_of (put_queues id (put_queue operation queue queues) faults) id' operation'
      ≡ (if same id' id && same operation' operation then queue else queue_of faults id' operation')
queue_of-put id id' operation operation' queue queues faults h =
    ap (λ q. or_empty (lookup operation' q))
      (lookup-put_queues id id' (put_queue operation queue queues) faults)
    ∙ elim (Bool-cases (same id' id)) [
      | inr d ↦ rw d refl
      | inl d ↦
          rw (same-eq id' id d, same_refl id, h)
            (lookup-put_queue operation operation' queue queues)
    ]

-- A test that picks the rest of one queue or the whole of another.
rest_at :
    (b : Bool) (queue other : List BusError)
    → (b ≡ true → other ≡ queue)
    → (if b then rest_of queue else other) ≡ (if b then rest_of other else other)
rest_at true queue other h = rw (h refl) refl
rest_at false queue other h = refl

rest_empty :
    (b : Bool) (queue : List BusError)
    → (b ≡ true → queue ≡ [])
    → queue ≡ (if b then rest_of queue else queue)
rest_empty true queue h = rw (h refl) refl
rest_empty false queue h = refl

queue_of-same :
    (id id' : DeviceId) (operation operation' : Text) (faults : MockFaultRegistry)
    → (same id' id && same operation' operation) ≡ true
    → queue_of faults id' operation' ≡ queue_of faults id operation
queue_of-same id id' operation operation' faults b =
    let d : same id' id ≡ true = ground arith in
    let o : same operation' operation ≡ true = ground arith in
    rw (same-eq id' id d, same-eq operation' operation o) refl

take-empty :
    (id : DeviceId) (operation : Text) (faults : MockFaultRegistry)
    → lookup operation (or_empty (lookup id faults)) ≡ none
    → take id operation faults ≡ (none, faults)
unfolding take
take-empty id operation faults h = elim (Option-cases (lookup id faults)) [
  | inl n ↦ rw (take, n) refl
  | inr (queues, q) ↦ let m : lookup operation queues ≡ none = rw q at h in rw (take, q, m) refl
]

take-some :
    (id : DeviceId) (operation : Text) (queue : List BusError) (queues : Queues)
    (faults : MockFaultRegistry)
    → lookup id faults ≡ some queues
    → lookup operation queues ≡ some queue
    → take id operation faults
      ≡ (first queue, put_queues id (put_queue operation (rest_of queue) queues) faults)
unfolding take
take-some id operation queue queues faults q m = rw (take, q, m) refl

queues-cases :
    (id : DeviceId) (operation : Text) (faults : MockFaultRegistry)
    → (lookup operation (or_empty (lookup id faults)) ≡ none)
      ⊎ ((queues : Queues) × (queue : List BusError) × (lookup id faults ≡ some queues)
          × (lookup operation queues ≡ some queue))
queues-cases id operation faults =
    elim (Option-cases (lookup operation (or_empty (lookup id faults)))) [
      | inl n ↦ inl n
      | inr (queue, m) ↦ elim (Option-cases (lookup id faults)) [
        | inl n ↦ let bad : none ≡ some queue = rw n at m in cc
        | inr (queues, q) ↦ inr (queues, queue, q, rw q at m)
      ]
    ]

-- What a taking promises: the head of the queue, and the queues that it leaves.
abbrev pub Taken :
    DeviceId → Text → MockFaultRegistry → Option BusError × MockFaultRegistry → Type 0
Taken id operation faults out =
    (out.0 ≡ first (queue_of faults id operation))
    × ((id' : DeviceId) (operation' : Text)
        → queue_of out.1 id' operation' ≡ (
            if same id' id && same operation' operation
            then rest_of (queue_of faults id' operation')
            else queue_of faults id' operation'))

-- Taking returns the error that was pushed first, if there is one, removes it from its queue and
-- changes no other queue.
pub take-Taken :
    (id : DeviceId) (operation : Text) (faults : MockFaultRegistry)
    → Taken id operation faults (take id operation faults)
take-Taken id operation faults = elim (queues-cases id operation faults) [
  | inl n ↦
      let empty : queue_of faults id operation ≡ [] = rw n refl in
      subst (Taken id operation faults) (sym (take-empty id operation faults n)) (
        rw empty refl,
        λ id' operation'.
            rest_empty _ _ (λ b. queue_of-same id id' operation operation' faults b ∙ empty),
      )
  | inr (queues, queue, q, m) ↦
      let held : queue_of faults id operation ≡ queue = rw (q, m) refl in
      subst (Taken id operation faults) (sym (take-some id operation queue queues faults q m)) (
        rw held refl,
        λ id' operation'.
            queue_of-put id id' operation operation' (rest_of queue) queues faults q
            ∙ rest_at _ queue _ (λ b. queue_of-same id id' operation operation' faults b ∙ held),
      )
]
