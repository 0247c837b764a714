-- ===== src/Discovery/Replay.antt =====
-- A client that starts from one snapshot and applies the events of a difference holds the next.
-- How a client applies one event to its table of devices.
use lemnos.Prelude.{
  All, Bool-cases, IsSorted, List, Map, Option, Option-cases, [], ap, arith, if◌then◌else◌, inl,
  inr, insert, insert-All, insert-IsSorted, lookup, lookup-Above, lookup-insert, lookup-remove, map,
  none, refl, remove, same, same-eq, some, text_ord, ◌++◌, ◌∙◌, ◌∷◌, ◌≡◌,
}
use lemnos.Core.Descriptor.{DeviceDescriptor, same_descriptor, same_descriptor-eq}
use lemnos.Core.Event.{InventoryEvent}
use lemnos.Core.Ids.{DeviceId}
use lemnos.Core.Interface.{interface_ord}
use lemnos.Discovery.Inventory.{
  ChangedDevice, InventorySnapshot, added_from, changed_from, collect_by_id, diff, events, get,
  removed_from,
}
use lemnos.Discovery.Validity.{IsSnapshot, lookup-get}

abbrev pub apply_event :
    Map DeviceId DeviceDescriptor → InventoryEvent → Map DeviceId DeviceDescriptor
apply_event m (InventoryEvent.added d) = insert d.id d m
apply_event m (InventoryEvent.changed previous current) = insert current.id current m
apply_event m (InventoryEvent.removed id) = remove id m

abbrev pub replay :
    Map DeviceId DeviceDescriptor → List InventoryEvent → Map DeviceId DeviceDescriptor
replay m [] = m
replay m (e ∷ es) = replay (apply_event m e) es

replay-append :
    (m : Map DeviceId DeviceDescriptor) (xs ys : List InventoryEvent)
    → replay m (xs ++ ys) ≡ replay (replay m xs) ys
replay-append m [] ys = refl
replay-append m (x ∷ xs) ys = replay-append (apply_event m x) xs ys

-- Every entry stands under the identifier of its descriptor.
abbrev IsKeyed : Map DeviceId DeviceDescriptor → Type 0
IsKeyed = All λ e. e.1.id ≡ e.0

collect_by_id-IsSorted :
    (m : Map DeviceId DeviceDescriptor) (ds : List DeviceDescriptor)
    → IsSorted m
    → IsSorted (collect_by_id m ds)
unfolding collect_by_id
collect_by_id-IsSorted m [] h = h
collect_by_id-IsSorted m (d ∷ ds) h =
    collect_by_id-IsSorted (insert d.id d m) ds (insert-IsSorted d.id d m h)

collect_by_id-IsKeyed :
    (m : Map DeviceId DeviceDescriptor) (ds : List DeviceDescriptor)
    → IsKeyed m
    → IsKeyed (collect_by_id m ds)
unfolding collect_by_id
collect_by_id-IsKeyed m [] h = h
collect_by_id-IsKeyed m (d ∷ ds) h =
    collect_by_id-IsKeyed (insert d.id d m) ds (insert-All _ d.id d m refl h)

abbrev pick_added :
    Option DeviceDescriptor
    → Option DeviceDescriptor
    → Option DeviceDescriptor
    → Option DeviceDescriptor
pick_added none (some d) x = some d
pick_added _ _ x = x

abbrev pick_changed :
    Option DeviceDescriptor
    → Option DeviceDescriptor
    → Option DeviceDescriptor
    → Option DeviceDescriptor
pick_changed (some p) (some d) x = if same_descriptor p d then x else some d
pick_changed _ _ x = x

abbrev pick_removed :
    Option DeviceDescriptor
    → Option DeviceDescriptor
    → Option DeviceDescriptor
    → Option DeviceDescriptor
pick_removed (some p) none x = none
pick_removed _ _ x = x

abbrev change_event : ChangedDevice → InventoryEvent
change_event c = InventoryEvent.changed c.previous c.current

module _ (current : Map DeviceId DeviceDescriptor) (j : DeviceId) where
  replay-added :
      (m es : Map DeviceId DeviceDescriptor)
      → IsSorted es
      → IsKeyed es
      → lookup j (replay m (map InventoryEvent.added (added_from current es)))
        ≡ pick_added (lookup j current) (lookup j es) (lookup j m)
  unfolding added_from
  replay-added m [] s k = ground arith
  replay-added m ((id, d) ∷ es) s k = elim (Bool-cases (same j id)) [
    | inl e ↦
        let gone : lookup j es ≡ none = rw (same-eq j id e) (lookup-Above id es s.0) in
        elim (Option-cases (lookup id current)) [
          | inl c ↦
              let c' : lookup j current ≡ none = rw (same-eq j id e) c in
              rw (c, c', e)
                (replay-added (insert d.id d m) es s.1 k.1
                  ∙ rw (gone, c', lookup-insert, k.0, e) refl)
          | inr (p, c) ↦
              let c' : lookup j current ≡ some p = rw (same-eq j id e) c in
              rw (c, c') (replay-added m es s.1 k.1 ∙ rw c')
        ]
    | inr e ↦ elim (Option-cases (lookup id current)) [
      | inl c ↦
          rw (c, e) (replay-added (insert d.id d m) es s.1 k.1 ∙ rw (lookup-insert, k.0, e) refl)
      | inr (p, c) ↦ rw (c, e) (replay-added m es s.1 k.1)
    ]
  ]

  replay-changed :
      (m es : Map DeviceId DeviceDescriptor)
      → IsSorted es
      → IsKeyed es
      → lookup j (replay m (map change_event (changed_from current es)))
        ≡ pick_changed (lookup j current) (lookup j es) (lookup j m)
  unfolding changed_from
  replay-changed m [] s k = ground arith
  replay-changed m ((id, d) ∷ es) s k = elim (Option-cases (lookup id current)) [
    | inl c ↦ elim (Bool-cases (same j id)) [
      | inl e ↦
          let c' : lookup j current ≡ none = rw (same-eq j id e) c in
          rw (c, c') (replay-changed m es s.1 k.1 ∙ rw c')
      | inr e ↦ rw (c, e) (replay-changed m es s.1 k.1)
    ]
    | inr (p, c) ↦ elim (Bool-cases (same_descriptor p d)) [
      | inl same_d ↦ elim (Bool-cases (same j id)) [
        | inl e ↦
            let gone : lookup j es ≡ none = rw (same-eq j id e) (lookup-Above id es s.0) in
            let c' : lookup j current ≡ some p = rw (same-eq j id e) c in
            rw (c, c', e, same_d) (replay-changed m es s.1 k.1 ∙ rw (gone, c'))
        | inr e ↦ rw (c, e, same_d) (replay-changed m es s.1 k.1)
      ]
      | inr new_d ↦ elim (Bool-cases (same j id)) [
        | inl e ↦
            let gone : lookup j es ≡ none = rw (same-eq j id e) (lookup-Above id es s.0) in
            let c' : lookup j current ≡ some p = rw (same-eq j id e) c in
            rw (c, c', e, new_d)
              (replay-changed (insert d.id d m) es s.1 k.1
                ∙ rw (gone, c', lookup-insert, k.0, e) refl)
        | inr e ↦
            rw (c, e, new_d)
              (replay-changed (insert d.id d m) es s.1 k.1 ∙ rw (lookup-insert, k.0, e) refl)
      ]
    ]
  ]

module _ (updated : Map DeviceId DeviceDescriptor) (j : DeviceId) where
  replay-removed :
      (m es : Map DeviceId DeviceDescriptor)
      → lookup j (replay m (map InventoryEvent.removed (removed_from updated es)))
        ≡ pick_removed (lookup j es) (lookup j updated) (lookup j m)
  unfolding removed_from
  replay-removed m [] = refl
  replay-removed m ((id, d) ∷ es) = elim (Option-cases (lookup id updated)) [
    | inl u ↦ elim (Bool-cases (same j id)) [
      | inl e ↦
          let u' : lookup j updated ≡ none = rw (same-eq j id e) u in
          rw (u, u', e)
            (replay-removed (remove id m) es
              ∙ rw (u', lookup-remove, e) (removed-twice (lookup j es)))
      | inr e ↦ rw (u, e) (replay-removed (remove id m) es ∙ rw (lookup-remove, e) refl)
    ]
    | inr (q, u) ↦ elim (Bool-cases (same j id)) [
      | inl e ↦
          let u' : lookup j updated ≡ some q = rw (same-eq j id e) u in
          rw (u, u', e) (replay-removed m es ∙ rw u' (kept q (lookup j es) (lookup j m)))
      | inr e ↦ rw (u, e) (replay-removed m es)
    ]
  ]
    where
      removed-twice : (c : Option DeviceDescriptor) → pick_removed c none none ≡ none
      removed-twice none = refl
      removed-twice (some p) = refl

      kept : (q : DeviceDescriptor) (c x : Option DeviceDescriptor) → pick_removed c (some q) x ≡ x
      kept q none x = refl
      kept q (some p) x = refl

-- The three picks together give what the next snapshot has.
picked :
    (c u : Option DeviceDescriptor) → pick_removed c u (pick_changed c u (pick_added c u c)) ≡ u
picked none none = refl
picked none (some d) = refl
picked (some p) none = refl
picked (some p) (some d) = elim (Bool-cases (same_descriptor p d)) [
  | inl e ↦ rw e (ap some (same_descriptor-eq p d e))
  | inr e ↦ rw e
]

replay-diff :
    (s next : InventorySnapshot) (id : DeviceId)
    → lookup id (replay (collect_by_id [] s.devices) (events (diff s next)))
      ≡ lookup id (collect_by_id [] next.devices)
unfolding events diff
replay-diff s next id =
    let current = collect_by_id [] s.devices in
    let updated = collect_by_id [] next.devices in
    let sorted = collect_by_id-IsSorted [] next.devices tt in
    let keyed = collect_by_id-IsKeyed [] next.devices tt in
    let added = map InventoryEvent.added (added_from current updated) in
    let changed = map change_event (changed_from current updated) in
    let removed = map InventoryEvent.removed (removed_from updated current) in
    ap (lookup id) (
      replay-append current added (changed ++ removed)
      ∙ replay-append (replay current added) changed removed)
    ∙ rw (replay-removed updated id (replay (replay current added) changed) current) (
        rw (replay-changed current id (replay current added) updated sorted keyed) (
          rw (replay-added current id current updated sorted keyed)
            (picked (lookup id current) (lookup id updated))))

-- The events of a difference, applied in their order to the table of the earlier snapshot, give a
-- table in which every identifier has what the later snapshot has, if that one is well-formed.
pub replay-events :
    (s next : InventorySnapshot) (id : DeviceId)
    → IsSnapshot next
    → lookup id (replay (collect_by_id [] s.devices) (events (diff s next))) ≡ get next id
replay-events s next id h = replay-diff s next id ∙ lookup-get next id h
