-- ===== src/Sdk/Session.antt =====
-- crates/lemnos-driver-sdk/src/device/{model,macros}.rs, context.rs and transport.rs: the parts that
-- the generic drivers share. Their bound devices have the same three fields, so that one record
-- stands for `GpioBoundDevice` and its like; `T` is the type of its statistics.
use lemnos.Prelude.Calls.{Call, ◌>>=◌, ◌>>◌, done, modify}
use lemnos.Prelude.{Option, Text, err, map_err, none, some, text_ord}
use lemnos.Bus.Error.{BusError}
use lemnos.Bus.Traits.{BusCall, BusSession}
use lemnos.Core.Descriptor.{DeviceDescriptor}
use lemnos.Core.Ids.{DeviceId}
use lemnos.Core.Interface.{interface_ord}
use lemnos.Core.Request.Kinds.{InteractionRequest}
use lemnos.Core.Request.Responses.{InteractionResponse, StandardResponse}
use lemnos.Core.Request.Validate.{request_name, validate_interaction}
use lemnos.Sdk.Error.{DriverError, DriverResult}

pub record SessionDevice (S T : Type 0) : Type 0 where
  pub driver_id : Text
  pub session : S
  pub stats : T

abbrev pub DeviceCall : Type 0 → Type 0 → Type 0 → Type 0
DeviceCall S T A = Call (SessionDevice S T) DriverError A

-- `transport_error`.
abbrev pub transport_error : Text → DeviceId → BusError → DriverError
transport_error driver_id device_id source = DriverError.transport driver_id device_id source

-- `interaction_name`.
abbrev pub interaction_name : InteractionRequest → Text
interaction_name (InteractionRequest.standard request) = request_name request
interaction_name (InteractionRequest.custom request) = request.id

-- `unsupported_action_error`.
abbrev pub unsupported_action_error : Text → DeviceDescriptor → InteractionRequest → DriverError
unsupported_action_error driver_id device request =
    DriverError.unsupported_action driver_id device.id (interaction_name request)

-- `validate_request_for_device`.
unfoldable pub validate_request_for_device :
    Text → DeviceDescriptor → InteractionRequest → DriverResult (Unit {0})
unfolding validate_interaction
validate_request_for_device driver_id device request =
    map_err (DriverError.invalid_request driver_id device.id) (validate_interaction request)

module _ {S T : Type 0} (bus : BusSession S) where
  -- A method of the device's `..DeviceIo`: it calls the session and maps its error.
  unfoldable pub on_session : {A : Type 0} → BusCall S A → DeviceCall S T A
  on_session call b =
      let (session, r) = call b.session in
      (
        record b { session = session },
        map_err (transport_error b.driver_id (bus.device b.session).id) r,
      )

  -- `close_session`.
  unfoldable pub close_session : DeviceCall S T (Unit {0})
  unfolding on_session
  close_session = on_session bus.close

  -- The macro `execute_standard_request`, where `handle` has the arm of the driver's own variant.
  unfoldable pub execute_standard :
      (InteractionRequest → Option (DeviceCall S T StandardResponse))
      → InteractionRequest
      → DeviceCall S T InteractionResponse
  unfolding validate_request_for_device
  execute_standard handle request = do
    λ b. (b, validate_request_for_device b.driver_id (bus.device b.session) request)
    elim (handle request) [
      | some call ↦ call >>= λ response. done (InteractionResponse.standard response)
      | none ↦ λ b. (b, err (unsupported_action_error b.driver_id (bus.device b.session) request))
    ]

-- A method of a session's statistics.
abbrev pub record_stats : {S T : Type 0} → (T → T) → DeviceCall S T (Unit {0})
record_stats f = modify λ b. record b { stats = f b.stats }
