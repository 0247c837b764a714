-- ===== src/Drivers/Counted.antt =====
-- Requests that fail are not counted: crates/lemnos-drivers-{gpio,pwm,spi,uart,i2c}/src/bound.rs.
use lemnos.Prelude.Calls.{Holds, Holds-proceed, proceed, done, ◌>>=◌}
use lemnos.Prelude.{
  Option, Option-cases, Result, Result-cases, err, inl, inr, map_err, none, ok, some, subst,
  text_ord, ◌≡◌,
}
use lemnos.Bus.Error.{BusError, BusResult}
use lemnos.Bus.Traits.{BusCall, BusSession, GpioSession}
use lemnos.Core.Interface.{interface_ord}
use lemnos.Core.Request.Kinds.{GpioRequest, InteractionRequest, StandardRequest}
use lemnos.Core.Request.Responses.{InteractionResponse, StandardResponse}
use lemnos.Drivers.Gpio.{GpioStats, gpio_handle, gpio_request}
use lemnos.Runtime.Requests.{request}
use lemnos.Sdk.Error.{DriverError}
use lemnos.Sdk.Session.{
  DeviceCall, SessionDevice, execute_standard, on_session, validate_request_for_device,
}

module _ {S T : Type 0} (stats : T) where
  -- The statistics are these, where the call failed.
  abbrev pub Counted : {A : Type 0} → SessionDevice S T × Result DriverError A → Type 0
  Counted = Holds (λ b. b.stats ≡ stats) (λ _ _. Unit {0})

  -- The call fails with these statistics, or it does not fail.
  abbrev pub Counts : {A : Type 0} → DeviceCall S T A → Type 0
  Counts call = (b : SessionDevice S T) → b.stats ≡ stats → Counted (call b)

  abbrev pub Unchanged : {A : Type 0} → A → SessionDevice S T → Type 0
  Unchanged _ b = b.stats ≡ stats

  pub mapped-Unchanged :
      {A : Type 0} (b : SessionDevice S T) (out : S × BusResult A) (f : BusError → DriverError)
      → b.stats ≡ stats
      → Holds (λ c. c.stats ≡ stats) Unchanged (record b { session = out.0 }, map_err f out.1)
  mapped-Unchanged b (s, ok a) f h = h
  mapped-Unchanged b (s, err e) f h = h

  pub request-Counts :
      {A R : Type 0} (bus : BusSession S) (call : BusCall S A) (next : A → DeviceCall S T R)
      → ((a : A) → Counts (next a))
      → Counts (on_session bus call >>= next)
  unfolding on_session
  request-Counts bus call next after b h =
      Holds-proceed (λ c. c.stats ≡ stats) Unchanged (λ _ _. Unit {0}) (on_session bus call b) next
        (mapped-Unchanged b (call b.session) _ h) after

  pub answered-Counts :
      {A R : Type 0} (call : DeviceCall S T A) (answer : A → R)
      → Counts call
      → Counts (call >>= λ a. done (answer a))
  answered-Counts call answer counts b h =
      Holds-proceed (λ c. c.stats ≡ stats) (λ _ _. Unit {0}) (λ _ _. Unit {0}) (call b)
        (λ a. done (answer a)) (counts b h) (λ _ _ _. tt)

  abbrev pub HandledCounts : Option (DeviceCall S T StandardResponse) → Type 0
  HandledCounts none = Unit
  HandledCounts (some call) = Counts call

  pub execute_standard-Counts :
      (bus : BusSession S) (handle : InteractionRequest → Option (DeviceCall S T StandardResponse))
      (request : InteractionRequest)
      → HandledCounts (handle request)
      → Counts (execute_standard bus handle request)
  unfolding execute_standard
  execute_standard-Counts bus handle request counts b h =
      elim (Result-cases (validate_request_for_device b.driver_id (bus.device b.session) request)) [
        | inr (e, v) ↦ rw (proceed, v) h
        | inl (u, v) ↦ elim (Option-cases (handle request)) [
          | inl n ↦ rw (proceed, v, n) h
          | inr (call, s) ↦
              rw (proceed, v, s)
                (answered-Counts call InteractionResponse.standard (subst HandledCounts s counts) b
                  h)
        ]
      ]

module _ {S : Type 0} where
  gpio_request-Counts :
      (session : GpioSession S) (stats : GpioStats) (request : GpioRequest)
      → Counts stats (gpio_request session request)
  unfolding gpio_request
  gpio_request-Counts session stats GpioRequest.read =
      request-Counts stats session.bus session.read_level _ (λ _ b h. tt)
  gpio_request-Counts session stats (GpioRequest.write level) =
      request-Counts stats session.bus (session.write_level level) _ (λ _ b h. tt)
  gpio_request-Counts session stats (GpioRequest.configure c) =
      request-Counts stats session.bus (session.configure_line c) _ (λ _ b h. tt)
  gpio_request-Counts session stats GpioRequest.get_configuration =
      request-Counts stats session.bus session.configuration _ (λ _ b h. tt)

  pub gpio_handle-Counts :
      (session : GpioSession S) (stats : GpioStats) (request : InteractionRequest)
      → HandledCounts stats (gpio_handle session request)
  unfolding gpio_handle
  gpio_handle-Counts session stats (InteractionRequest.standard (StandardRequest.gpio request)) =
      answered-Counts stats (gpio_request session request) StandardResponse.gpio
        (gpio_request-Counts session stats request)
  gpio_handle-Counts session stats (InteractionRequest.standard (StandardRequest.pwm _)) = tt
  gpio_handle-Counts session stats (InteractionRequest.standard (StandardRequest.i2c _)) = tt
  gpio_handle-Counts session stats (InteractionRequest.standard (StandardRequest.spi _)) = tt
  gpio_handle-Counts session stats (InteractionRequest.standard (StandardRequest.uart _)) = tt
  gpio_handle-Counts session stats (InteractionRequest.standard (StandardRequest.usb _)) = tt
  gpio_handle-Counts session stats (InteractionRequest.custom _) = tt
