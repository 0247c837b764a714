-- ===== src/Registry/Invariant.antt =====
-- What registration keeps true of a registry.
use lemnos.Prelude.{
  All, All-append, All-map, Bool, Bool-cases, List, Result-cases, Text, [], any, arith, err-ne-ok,
  false, find, inl, inr, insert, insert-All, is_some, lookup, lookup-insert_self, ok, ok-injective,
  refl, same, some, subst, sym, text_ord, true, true≢false, ◌++◌, ◌∙◌, ◌∷◌, ◌≡◌,
}
use lemnos.Core.Ids.{DeviceId}
use lemnos.Core.Interface.{interface_ord}
use lemnos.Manifest.Driver.{validate_manifest}
use lemnos.Registry.Defs.{DriverRegistry, find_driver, prefer_driver_for_device, register}
use lemnos.Sdk.Driver.{Driver}

module _ {C B : Type 0} where
  abbrev pub Distinct : List (Driver C B) → Type 0
  Distinct [] = Unit
  Distinct (d ∷ ds) = All (λ x. same d.id x.id ≡ false) ds × Distinct ds

  -- The drivers have distinct identifiers and valid manifests, and every preference names one.
  pub record IsRegistry (registry : DriverRegistry C B) : Type 0 where
    pub distinct : Distinct registry.drivers
    pub valid : All (λ d. validate_manifest d.manifest ≡ ok tt) registry.drivers
    pub preferred :
        All (λ e. any (λ d. same d.id e.1) registry.drivers ≡ true) registry.preferred_drivers

  any-append :
      (p : Driver C B → Bool) (xs ys : List (Driver C B))
      → any p xs ≡ true
      → any p (xs ++ ys) ≡ true
  any-append p [] ys h = cc
  any-append p (x ∷ xs) ys h = ground (arith, any-append p xs ys)

  Distinct-append :
      (ds : List (Driver C B)) (new : Driver C B)
      → any (λ d. same d.id new.id) ds ≡ false
      → Distinct ds
      → Distinct (ds ++ new ∷ [])
  Distinct-append [] new h k = (tt, tt)
  Distinct-append (d ∷ ds) new h k = elim (Bool-cases (same d.id new.id)) [
    | inl e ↦ absurd (true≢false (rw e at h))
    | inr e ↦ (
      All-append (λ x. same d.id x.id ≡ false) ds (new ∷ []) k.0 (e, tt),
      Distinct-append ds new (rw e at h) k.1,
    )
  ]

  -- A driver that `register` accepts keeps the registry well-formed: its identifier was not taken
  -- and its manifest is valid.
  pub register-IsRegistry :
      {registry registry' : DriverRegistry C B} (new : Driver C B)
      → register registry new ≡ ok registry'
      → IsRegistry registry
      → IsRegistry registry'
  unfolding register
  register-IsRegistry {registry} {registry'} new h inv =
      elim (Bool-cases (any (λ d. same d.id new.id) registry.drivers)) [
        | inl e ↦ absurd (err-ne-ok (rw e at h))
        | inr e ↦ elim (Result-cases (validate_manifest new.manifest)) [
          | inr (x, v) ↦ absurd (err-ne-ok (rw (e, v) at h))
          | inl (u, v) ↦
              let made : record registry { drivers = registry.drivers ++ new ∷ [] } ≡ registry' =
                ok-injective (rw (e, v) at h) in
              subst IsRegistry made (record {
                distinct = Distinct-append registry.drivers new e inv.distinct;
                valid =
                    All-append (λ d. validate_manifest d.manifest ≡ ok tt) registry.drivers
                      (new ∷ []) inv.valid (v, tt);
                preferred =
                    All-map registry.preferred_drivers
                      (λ p q. any-append (λ d. same d.id p.1) registry.drivers (new ∷ []) q)
                      inv.preferred;
              })
        ]
      ]

  find_driver-any :
      (registry : DriverRegistry C B) (id : Text)
      → is_some (find_driver registry id) ≡ any (λ d. same d.id id) registry.drivers
  unfolding find_driver
  find_driver-any registry id = go registry.drivers
    where
      go :
          (ds : List (Driver C B))
          → is_some (find (λ d. same d.id id) ds) ≡ any (λ d. same d.id id) ds
      go [] = refl
      go (d ∷ ds) = ground (arith, go ds)

  -- A preference is accepted only for a registered driver, and it is the one that is looked up.
  pub prefer-IsRegistry :
      {registry registry' : DriverRegistry C B} (device_id : DeviceId) (driver_id : Text)
      → prefer_driver_for_device registry device_id driver_id ≡ ok registry'
      → IsRegistry registry
      → IsRegistry registry' × (lookup device_id registry'.preferred_drivers ≡ some driver_id)
  unfolding prefer_driver_for_device
  prefer-IsRegistry {registry} {registry'} device_id driver_id h inv =
      elim (Bool-cases (is_some (find_driver registry driver_id))) [
        | inr e ↦ absurd (err-ne-ok (rw e at h))
        | inl e ↦
            let made : record registry {
              preferred_drivers = insert device_id driver_id registry.preferred_drivers;
            }
                ≡ registry' =
              ok-injective (rw e at h) in
            subst (λ r. IsRegistry r × (lookup device_id r.preferred_drivers ≡ some driver_id)) made
              (
                record {
                  distinct = inv.distinct;
                  valid = inv.valid;
                  preferred =
                      insert-All (λ e. any (λ d. same d.id e.1) registry.drivers ≡ true) device_id
                        driver_id registry.preferred_drivers
                        (sym (find_driver-any registry driver_id) ∙ e) inv.preferred;
                },
                lookup-insert_self device_id driver_id registry.preferred_drivers,
              )
      ]
