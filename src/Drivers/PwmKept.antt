-- ===== src/Drivers/PwmKept.antt =====
-- What every request to the PWM driver keeps: crates/lemnos-drivers-pwm/src/bound.rs.
use lemnos.Prelude.Calls.{Keeps, Keeps-proceed}
use lemnos.Prelude.{Bool, text_ord, ℕ}
use lemnos.Bus.Traits.{PwmSession}
use lemnos.Core.Interface.{interface_ord}
use lemnos.Core.Request.Kinds.{InteractionRequest, PwmConfiguration, PwmRequest, StandardRequest}
use lemnos.Drivers.Kept.{Handled, InSession, execute_standard-Keeps, request-Keeps}
use lemnos.Drivers.Pwm.{PwmStats, pwm_execute, pwm_handle, pwm_request}
use lemnos.Runtime.Requests.{request}
use lemnos.Sdk.Session.{SessionDevice}

module _ {S : Type 0} (session : PwmSession S) (inv : S → Type 0)
    (enable : (enabled : Bool) → Keeps inv (session.set_enabled enabled))
    (period : (period_ns : ℕ) → Keeps inv (session.set_period_ns period_ns))
    (duty : (duty_ns : ℕ) → Keeps inv (session.set_duty_cycle_ns duty_ns))
    (configure : (c : PwmConfiguration) → Keeps inv (session.configure c))
    (configuration : Keeps inv session.configuration) where
  abbrev OfBound : SessionDevice S PwmStats → Type 0
  OfBound = InSession session.bus inv

  pwm_request-Keeps : (request : PwmRequest) → Keeps OfBound (pwm_request session request)
  unfolding pwm_request
  pwm_request-Keeps (PwmRequest.enable enabled) =
      request-Keeps session.bus inv (session.set_enabled enabled) _ (enable enabled) (λ _ b h. h)
  pwm_request-Keeps (PwmRequest.configure c) =
      request-Keeps session.bus inv (session.configure c) _ (configure c) (λ _ b h. h)
  pwm_request-Keeps (PwmRequest.set_period n) =
      request-Keeps session.bus inv (session.set_period_ns n) _ (period n) (λ _ b h. h)
  pwm_request-Keeps (PwmRequest.set_duty_cycle n) =
      request-Keeps session.bus inv (session.set_duty_cycle_ns n) _ (duty n) (λ _ b h. h)
  pwm_request-Keeps PwmRequest.get_configuration =
      request-Keeps session.bus inv session.configuration _ configuration (λ _ b h. h)

  pwm_handle-Keeps :
      (request : InteractionRequest) → Handled session.bus inv (pwm_handle session request)
  unfolding pwm_handle
  pwm_handle-Keeps (InteractionRequest.standard (StandardRequest.pwm request)) =
      Keeps-proceed OfBound (pwm_request session request) _ (pwm_request-Keeps request) (λ r b h. h)
  pwm_handle-Keeps (InteractionRequest.standard (StandardRequest.gpio _)) = tt
  pwm_handle-Keeps (InteractionRequest.standard (StandardRequest.i2c _)) = tt
  pwm_handle-Keeps (InteractionRequest.standard (StandardRequest.spi _)) = tt
  pwm_handle-Keeps (InteractionRequest.standard (StandardRequest.uart _)) = tt
  pwm_handle-Keeps (InteractionRequest.standard (StandardRequest.usb _)) = tt
  pwm_handle-Keeps (InteractionRequest.custom _) = tt

  -- Every request keeps what the methods of the session keep.
  pub pwm_execute-Keeps :
      (request : InteractionRequest) → Keeps OfBound (pwm_execute session request)
  unfolding pwm_execute
  pwm_execute-Keeps request =
      execute_standard-Keeps session.bus inv (pwm_handle session) request (pwm_handle-Keeps request)
