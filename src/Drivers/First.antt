-- ===== src/Drivers/First.antt =====
-- A request that first calls the session: crates/lemnos-driver-sdk/src/device/macros.rs.
use lemnos.Prelude.Calls.{proceed, ◌>>=◌}
use lemnos.Prelude.{err, is_ok, map_err, ok, ok-injective, refl, text_ord, true, ◌≡◌}
use lemnos.Bus.Error.{BusError, BusResult}
use lemnos.Bus.Traits.{BusCall, BusSession}
use lemnos.Core.Interface.{interface_ord}
use lemnos.Sdk.Error.{DriverError}
use lemnos.Sdk.Session.{DeviceCall, SessionDevice, on_session, transport_error}

module _ {S T : Type 0} where
  -- It succeeds only where the session's call does.
  mapped-ok :
      {A R : Type 0} (b : SessionDevice S T) (out : S × BusResult A) (f : BusError → DriverError)
      (next : A → DeviceCall S T R)
      → is_ok (proceed (record b { session = out.0 }, map_err f out.1) next).1 ≡ true
      → is_ok out.1 ≡ true
  mapped-ok b (s, ok a) f next h = refl
  mapped-ok b (s, err e) f next h = h

  pub first-ok :
      {A R : Type 0} (bus : BusSession S) (call : BusCall S A) (next : A → DeviceCall S T R)
      (b : SessionDevice S T)
      → is_ok ((on_session bus call >>= next) b).1 ≡ true
      → is_ok (call b.session).1 ≡ true
  unfolding on_session
  first-ok bus call next b h =
      mapped-ok b (call b.session) (transport_error b.driver_id (bus.device b.session).id) next h

  -- What comes after it does not touch the session.
  mapped-session :
      {A R : Type 0} (b : SessionDevice S T) (out : S × BusResult A) (f : BusError → DriverError)
      (next : A → DeviceCall S T R)
      → ((a : A) (c : SessionDevice S T) → (next a c).0.session ≡ c.session)
      → (proceed (record b { session = out.0 }, map_err f out.1) next).0.session ≡ out.0
  mapped-session b (s, ok a) f next h = h a (record b { session = s })
  mapped-session b (s, err e) f next h = refl

  pub first-session :
      {A R : Type 0} (bus : BusSession S) (call : BusCall S A) (next : A → DeviceCall S T R)
      (b : SessionDevice S T)
      → ((a : A) (c : SessionDevice S T) → (next a c).0.session ≡ c.session)
      → ((on_session bus call >>= next) b).0.session ≡ (call b.session).0
  unfolding on_session
  first-session bus call next b h =
      mapped-session b (call b.session) (transport_error b.driver_id (bus.device b.session).id) next
        h

  -- Where it succeeds, the request goes on with its value.
  mapped-value :
      {A R : Type 0} (b : SessionDevice S T) (out : S × BusResult A) (f : BusError → DriverError)
      (next : A → DeviceCall S T R) (a : A)
      → out.1 ≡ ok a
      → proceed (record b { session = out.0 }, map_err f out.1) next
        ≡ next a (record b { session = out.0 })
  mapped-value b (s, ok c) f next a h = let e : c ≡ a = ok-injective h in rw e refl
  mapped-value b (s, err e) f next a h = cc

  pub first-value :
      {A R : Type 0} (bus : BusSession S) (call : BusCall S A) (next : A → DeviceCall S T R)
      (b : SessionDevice S T) (a : A)
      → (call b.session).1 ≡ ok a
      → (on_session bus call >>= next) b ≡ next a (record b { session = (call b.session).0 })
  unfolding on_session
  first-value bus call next b a h =
      mapped-value b (call b.session) (transport_error b.driver_id (bus.device b.session).id) next a
        h
