-- ===== src/Mock/Steps.antt =====
-- What the shared statements of the mock sessions keep: crates/lemnos-mock/src/hardware/mod.rs.
use lemnos.Prelude.Calls.{Holds, Keeps}
use lemnos.Prelude.{
  Bool, Map, Option, Option-cases, Text, err, false, inl, inr, lookup, none, ok, refl, some,
  text_ord, true, ◌≡◌,
}
use lemnos.Bus.Error.{BusError, BusResult}
use lemnos.Core.Ids.{DeviceId}
use lemnos.Core.Interface.{interface_ord}
use lemnos.Drivers.UsbStats.{number_ord}
use lemnos.Mock.Faults.{MockFaultRegistry, take}
use lemnos.Mock.Hardware.{
  Clock, MockCall, MockHardwareState, MockWorld, begin, device_id, entry_of, finish_with, injected,
  require, run_call, take_injected_error, with_metadata,
}

-- A property of the hardware that its faults do not matter to.
abbrev pub FaultFree : (MockHardwareState → Type 0) → Type 0
FaultFree P =
    (hw : MockHardwareState) (faults : MockFaultRegistry) → P hw → P (record hw { faults = faults })

module _ (P : MockHardwareState → Type 0) where
  abbrev pub OnHardware : MockWorld → Type 0
  OnHardware w = P w.hardware

  finish_with-Holds :
      {A : Type 0} (clock : Clock) (out : MockWorld × BusResult A)
      (post : A → MockHardwareState → Type 0)
      → Holds OnHardware (λ a v. post a v.hardware) out
      → Holds OnHardware (λ a v. post a v.hardware) (finish_with clock out)
  unfolding finish_with with_metadata
  finish_with-Holds clock (w, ok a) post h = h
  finish_with-Holds clock (w, err e) post h = h

  injected-Keeps : (taken : Option BusError) → Keeps OnHardware (injected taken)
  unfolding injected
  injected-Keeps none w h = h
  injected-Keeps (some e) w h = h

  pub take_injected_error-Keeps :
      FaultFree P → (operation : Text) → Keeps OnHardware (take_injected_error operation)
  unfolding take_injected_error
  take_injected_error-Keeps free operation w h =
      injected-Keeps (take (device_id w) operation w.hardware.faults).0 _ (free w.hardware _ h)

  pub run_call-Holds :
      {A : Type 0} (clock : Clock) (call : MockCall A) (post : A → MockHardwareState → Type 0)
      → ((w : MockWorld) → OnHardware w → Holds OnHardware (λ a v. post a v.hardware) (call w))
      → (w : MockWorld) → OnHardware w
      → Holds OnHardware (λ a v. post a v.hardware) (run_call clock call w)
  unfolding run_call
  run_call-Holds clock call post keeps w h =
      finish_with-Holds clock (call (begin clock w)) post (keeps (begin clock w) h)

  -- A guard that fails leaves the hardware alone, and one that succeeds gives its test.
  pub require-Holds :
      (test : Bool) (otherwise : MockCall (Unit {0}))
      → ((w : MockWorld) → (e : BusError) × (otherwise w ≡ (w, err e)))
      → (w : MockWorld) → OnHardware w
      → Holds OnHardware (λ _ v. (test ≡ true) × (v ≡ w) × OnHardware v) (require test otherwise w)
  require-Holds true otherwise failing w h = (refl, refl, h)
  require-Holds false otherwise failing w h = rw (require, (failing w).1) h

  -- An entry that was found is the one in the map.
  pub entry_of-Holds :
      {A : Type 0} (entries : MockHardwareState → Map DeviceId A) (w : MockWorld)
      → OnHardware w
      → Holds OnHardware
          (λ a v. (lookup (device_id v) (entries v.hardware) ≡ some a) × (v ≡ w) × OnHardware v)
          (entry_of entries w)
  entry_of-Holds entries w h = elim (Option-cases (lookup (device_id w) (entries w.hardware))) [
    | inl n ↦ rw (entry_of, n) h
    | inr (a, s) ↦ rw (entry_of, s) (s, refl, h)
  ]
