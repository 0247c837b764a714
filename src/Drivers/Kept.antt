-- ===== src/Drivers/Kept.antt =====
-- What the shared parts of the generic drivers keep of the session, and of the statistics:
-- crates/lemnos-driver-sdk/src/device/{model,macros}.rs.
use lemnos.Prelude.Calls.{Holds, Keeps, Keeps-proceed, proceed, done, ◌>>=◌}
use lemnos.Prelude.{
  Option, Option-cases, Result-cases, err, inl, inr, map_err, none, ok, some, subst, text_ord,
}
use lemnos.Bus.Error.{BusError, BusResult}
use lemnos.Bus.Traits.{BusCall, BusSession}
use lemnos.Core.Interface.{interface_ord}
use lemnos.Core.Request.Kinds.{InteractionRequest}
use lemnos.Core.Request.Responses.{InteractionResponse, StandardResponse}
use lemnos.Runtime.Requests.{request}
use lemnos.Sdk.Error.{DriverError}
use lemnos.Sdk.Session.{
  DeviceCall, SessionDevice, execute_standard, on_session, transport_error,
  validate_request_for_device,
}

module _ {S T : Type 0} (bus : BusSession S) (inv : S → Type 0) where
  -- The property of the session that a bound device holds.
  abbrev pub InSession : SessionDevice S T → Type 0
  InSession b = inv b.session

  on_session-Keeps :
      {A : Type 0} (b : SessionDevice S T) (out : S × BusResult A) (f : BusError → DriverError)
      → Holds inv (λ _. inv) out
      → Holds InSession (λ _. InSession) (record b { session = out.0 }, map_err f out.1)
  on_session-Keeps b (s, ok a) f h = h
  on_session-Keeps b (s, err e) f h = h

  pub session-Keeps :
      {A : Type 0} (call : BusCall S A) → Keeps inv call → Keeps InSession (on_session bus call)
  unfolding on_session
  session-Keeps call keeps b h =
      on_session-Keeps b (call b.session) (transport_error b.driver_id (bus.device b.session).id)
        (keeps b.session h)

  -- A request is one call of the session, and then statistics and a response.
  pub request-Keeps :
      {A R : Type 0} (call : BusCall S A) (next : A → DeviceCall S T R)
      → Keeps inv call
      → ((a : A) → Keeps InSession (next a))
      → Keeps InSession (on_session bus call >>= next)
  request-Keeps call next keeps after =
      Keeps-proceed InSession (on_session bus call) next (session-Keeps call keeps) after

  -- What holds of the arm that handles a request, if there is one.
  abbrev pub Handled : Option (DeviceCall S T StandardResponse) → Type 0
  Handled none = Unit
  Handled (some call) = Keeps InSession call

  pub execute_standard-Keeps :
      (handle : InteractionRequest → Option (DeviceCall S T StandardResponse))
      (request : InteractionRequest)
      → Handled (handle request)
      → Keeps InSession (execute_standard bus handle request)
  unfolding execute_standard
  execute_standard-Keeps handle request keeps b h =
      elim (Result-cases (validate_request_for_device b.driver_id (bus.device b.session) request)) [
        | inr (e, v) ↦ rw (proceed, v) h
        | inl (u, v) ↦ elim (Option-cases (handle request)) [
          | inl n ↦ rw (proceed, v, n) h
          | inr (call, s) ↦
              rw (proceed, v, s)
                (Keeps-proceed InSession call (λ r. done (InteractionResponse.standard r))
                  (subst Handled s keeps) (λ r c k. k) b h)
        ]
      ]
