-- ===== src/Discovery/Validity.antt =====
-- A snapshot that was built holds valid descriptors under distinct identifiers, so that the linear
-- scan of `get` and the maps of `diff` agree.
use lemnos.Prelude.{
  All, Bool-cases, List, Map, Option, Option-cases, Result-cases, [], err-ne-ok, false, find, inl,
  inr, insert, lookup, lookup-insert, none, ok, ok-injective, or_else, refl, same, same-eq,
  same_sym, some, subst, text_ord, ◌∙◌, ◌∷◌, ◌≡◌,
}
use lemnos.Core.Descriptor.{DeviceDescriptor, validate_descriptor}
use lemnos.Core.Ids.{DeviceId}
use lemnos.Core.Interface.{interface_ord}
use lemnos.Core.State.{TimestampMs}
use lemnos.Discovery.Inventory.{
  InventorySnapshot, check_devices, collect_by_id, get, with_observed_at,
}

abbrev pub DistinctIds : List DeviceDescriptor → Type 0
DistinctIds [] = Unit
DistinctIds (d ∷ ds) = All (λ x. same x.id d.id ≡ false) ds × DistinctIds ds

pub record IsSnapshot (s : InventorySnapshot) : Type 0 where
  pub valid : All (λ d. validate_descriptor d ≡ ok tt) s.devices
  pub distinct : DistinctIds s.devices

-- None of the devices has an identifier that was seen before.
abbrev Unseen : Map DeviceId (Unit {0}) → List DeviceDescriptor → Type 0
Unseen seen = All λ d. lookup d.id seen ≡ none

Unseen-insert :
    (id : DeviceId) (seen : Map DeviceId (Unit {0})) (ds : List DeviceDescriptor)
    → Unseen (insert id tt seen) ds
    → Unseen seen ds × All (λ d. same d.id id ≡ false) ds
Unseen-insert id seen [] h = (tt, tt)
Unseen-insert id seen (d ∷ ds) h =
    let r = Unseen-insert id seen ds h.1 in
    elim (Bool-cases (same d.id id)) [
      | inl e ↦ let bad : some tt ≡ none = rw (lookup-insert, e) at h.0 in cc
      | inr e ↦ (((rw (lookup-insert, e) at h.0), r.0), (e, r.1))
    ]

check_devices-ok :
    (seen : Map DeviceId (Unit {0})) (ds : List DeviceDescriptor)
    → check_devices seen ds ≡ ok tt
    → All (λ d. validate_descriptor d ≡ ok tt) ds × DistinctIds ds × Unseen seen ds
unfolding check_devices
check_devices-ok seen [] h = (tt, tt, tt)
check_devices-ok seen (d ∷ ds) h = elim (Result-cases (validate_descriptor d)) [
  | inr (e, v) ↦ absurd (err-ne-ok (rw v at h))
  | inl (u, v) ↦ elim (Option-cases (lookup d.id seen)) [
    | inr (w, l) ↦ absurd (err-ne-ok (rw (v, l) at h))
    | inl l ↦
        let (valid, distinct, unseen) =
          check_devices-ok (insert d.id tt seen) ds (rw (v, l) at h) in
        let r = Unseen-insert d.id seen ds unseen in ((v, valid), (r.1, distinct), (l, r.0))
  ]
]

insert-Unseen :
    (id : DeviceId) (seen : Map DeviceId (Unit {0})) (ds : List DeviceDescriptor)
    → Unseen seen ds
    → All (λ d. same d.id id ≡ false) ds
    → Unseen (insert id tt seen) ds
insert-Unseen id seen [] h k = tt
insert-Unseen id seen (d ∷ ds) h k = (rw (lookup-insert, k.0) h.0, insert-Unseen id seen ds h.1 k.1)

check_devices-eq :
    (seen : Map DeviceId (Unit {0})) (ds : List DeviceDescriptor)
    → All (λ d. validate_descriptor d ≡ ok tt) ds
    → DistinctIds ds
    → Unseen seen ds
    → check_devices seen ds ≡ ok tt
unfolding check_devices
check_devices-eq seen [] v d u = refl
check_devices-eq seen (x ∷ xs) v d u =
    rw (v.0, u.0)
      (check_devices-eq (insert x.id tt seen) xs v.1 d.1 (insert-Unseen x.id seen xs u.1 d.0))

Unseen-nil : (ds : List DeviceDescriptor) → Unseen [] ds
Unseen-nil [] = tt
Unseen-nil (d ∷ ds) = (refl, Unseen-nil ds)

-- Valid devices with distinct identifiers make a snapshot.
pub with_observed_at-eq :
    (devices : List DeviceDescriptor) (at : Option TimestampMs)
    → All (λ d. validate_descriptor d ≡ ok tt) devices
    → DistinctIds devices
    → with_observed_at devices at ≡ ok (record { observed_at = at; devices = devices })
unfolding with_observed_at
with_observed_at-eq devices at v d = rw (check_devices-eq [] devices v d (Unseen-nil devices)) refl

-- Every snapshot that `with_observed_at` returns has valid descriptors and distinct identifiers.
pub with_observed_at-IsSnapshot :
    (devices : List DeviceDescriptor) (at : Option TimestampMs) {s : InventorySnapshot}
    → with_observed_at devices at ≡ ok s
    → IsSnapshot s × (s.devices ≡ devices) × (s.observed_at ≡ at)
unfolding with_observed_at
with_observed_at-IsSnapshot devices at {s} h = elim (Result-cases (check_devices [] devices)) [
  | inr (e, c) ↦ absurd (err-ne-ok (rw c at h))
  | inl (u, c) ↦
      let made : record { observed_at = at; devices = devices } ≡ s = ok-injective (rw c at h) in
      let (valid, distinct, _) = check_devices-ok [] devices c in
      subst (λ k. IsSnapshot k × (k.devices ≡ devices) × (k.observed_at ≡ at)) made
        (record { valid = valid; distinct = distinct }, refl, refl)
]

find-none_of_distinct :
    (id : DeviceId) (ds : List DeviceDescriptor)
    → All (λ d. same d.id id ≡ false) ds
    → find (λ d. same d.id id) ds ≡ none
find-none_of_distinct id [] h = refl
find-none_of_distinct id (d ∷ ds) h = rw (find, h.0) (find-none_of_distinct id ds h.1)

lookup-collect_by_id :
    (id : DeviceId) (m : Map DeviceId DeviceDescriptor) (ds : List DeviceDescriptor)
    → DistinctIds ds
    → lookup id (collect_by_id m ds) ≡ or_else (find (λ d. same d.id id) ds) (lookup id m)
unfolding collect_by_id
lookup-collect_by_id id m [] h = refl
lookup-collect_by_id id m (d ∷ ds) h = elim (Bool-cases (same d.id id)) [
  | inl e ↦
      let same_id = same-eq d.id id e in
      lookup-collect_by_id id (insert d.id d m) ds h.1
      ∙ rw
          (find-none_of_distinct id ds (subst (λ k. All (λ x. same x.id k ≡ false) ds) same_id h.0))
          (simp (lookup-insert, same_sym id d.id, e))
  | inr e ↦
      lookup-collect_by_id id (insert d.id d m) ds h.1 ∙ simp (lookup-insert, same_sym id d.id, e)
]

or_else-none : (o : Option DeviceDescriptor) → or_else o none ≡ o
or_else-none none = refl
or_else-none (some d) = refl

-- In a snapshot with distinct identifiers, `get` finds what `diff` looks up.
pub lookup-get :
    (s : InventorySnapshot) (id : DeviceId)
    → IsSnapshot s
    → lookup id (collect_by_id [] s.devices) ≡ get s id
unfolding get
lookup-get s id h = lookup-collect_by_id id [] s.devices h.distinct ∙ or_else-none _
