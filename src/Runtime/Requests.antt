-- ===== src/Runtime/Requests.antt =====
-- crates/lemnos-runtime/src/runtime/requests.rs: dispatching a request to a bound device.
use lemnos.Prelude.{
  Bool, Option, err, false, if◌then◌else◌, insert, is_ok, lookup, map_err, none, not, ok, ok_or,
  some, text_ord, true, ◌&&◌, ◌>>=◌, ◌>>◌,
}
use lemnos.Core.Descriptor.{DeviceDescriptor}
use lemnos.Core.Interface.{interface_ord}
use lemnos.Core.Request.Kinds.{DeviceRequest}
use lemnos.Core.Request.Responses.{DeviceResponse, InteractionResponse}
use lemnos.Core.Request.Validate.{validate_for}
use lemnos.Core.State.{DeviceStateSnapshot}
use lemnos.Discovery.Inventory.{get}
use lemnos.Runtime.Defs.{
  Env, Runtime, cache_option, cache_state, completed, ensure_running, is_bound,
}
use lemnos.Runtime.Diagnostics.{
  RuntimeError, RuntimeFailureOperation, RuntimeResult, complete_operation,
}
use lemnos.Runtime.Operations.{bind_discovered_device}
use lemnos.Sdk.Error.{DriverResult}

module _ {B : Type 0} (env : Env B) where
  -- The calls of the locked device: it is left as they leave it, whatever they return.
  unfoldable pub read_state :
      Bool
      → B
      → InteractionResponse
      → B × DriverResult (InteractionResponse × Option DeviceStateSnapshot)
  read_state false bound interaction = (bound, ok (interaction, none))
  read_state true bound interaction =
      let (left, answer) = env.device.state bound in
      (left, do state ← answer; ok (interaction, state))

  read_after :
      Bool
      → B × DriverResult InteractionResponse
      → B × DriverResult (InteractionResponse × Option DeviceStateSnapshot)
  unfolding read_state
  read_after cache (left, err e) = (left, err e)
  read_after cache (left, ok interaction) = read_state cache left interaction

  unfoldable pub dispatch :
      DeviceRequest → Bool → B → B × DriverResult (InteractionResponse × Option DeviceStateSnapshot)
  unfolding read_after
  dispatch request cache bound = read_after cache (env.device.execute bound request.interaction)

module _ {C B : Type 0} where
  unfoldable pub validated_request_device :
      DeviceRequest → Runtime C B → RuntimeResult DeviceDescriptor
  unfolding ensure_running get validate_for
  validated_request_device request rt = do
    ensure_running rt
    device ←
        ok_or (get rt.inventory request.device_id) (RuntimeError.unknown_device request.device_id)
    map_err (RuntimeError.invalid_request request.device_id) (validate_for request device)
    ok device

module _ {C B : Type 0} (env : Env B) where
  unfoldable pub bind_for_request :
      DeviceRequest
      → RuntimeResult DeviceDescriptor
      → Runtime C B
      → Runtime C B × RuntimeResult (Unit {0})
  unfolding bind_discovered_device
  bind_for_request request (err e) rt = (rt, err e)
  bind_for_request request (ok device) rt =
      if is_bound rt request.device_id
      then (rt, ok tt)
      else if not rt.config.auto_bind_on_request
      then (rt, err (RuntimeError.device_not_bound request.device_id))
      else bind_discovered_device env device rt

  unfoldable pub prepare_request_binding :
      DeviceRequest → Runtime C B → Runtime C B × RuntimeResult (Unit {0})
  unfolding validated_request_device bind_for_request
  prepare_request_binding request rt =
      bind_for_request request (validated_request_device request rt) rt

  unfoldable pub answered :
      DeviceRequest
      → DriverResult (InteractionResponse × Option DeviceStateSnapshot)
      → Runtime C B
      → Runtime C B × RuntimeResult DeviceResponse
  unfolding cache_state
  answered request (err e) rt = (rt, err (RuntimeError.driver request.device_id e))
  answered request (ok (interaction, state)) rt = (
    cache_option env state rt,
    ok (record { device_id = request.device_id; interaction = interaction }),
  )

  unfoldable pub dispatch_bound :
      DeviceRequest → Option B → Runtime C B → Runtime C B × RuntimeResult DeviceResponse
  unfolding answered dispatch
  dispatch_bound request none rt = (rt, err (RuntimeError.device_not_bound request.device_id))
  dispatch_bound request (some bound) rt =
      let (left, answer) = dispatch env request rt.config.cache_state_on_request bound in
      answered request answer (record rt { bindings = insert request.device_id left rt.bindings })

  unfoldable pub after_binding :
      DeviceRequest
      → Runtime C B × RuntimeResult (Unit {0})
      → Runtime C B × RuntimeResult DeviceResponse
  unfolding dispatch_bound
  after_binding request (rt, err e) = (rt, err e)
  after_binding request (rt, ok _) =
      dispatch_bound request (lookup request.device_id rt.bindings) rt

  unfoldable pub request_inner :
      DeviceRequest → Runtime C B → Runtime C B × RuntimeResult DeviceResponse
  unfolding prepare_request_binding after_binding
  request_inner request rt = after_binding request (prepare_request_binding request rt)

  -- `request`.
  unfoldable pub request : DeviceRequest → Runtime C B → Runtime C B × RuntimeResult DeviceResponse
  unfolding request_inner complete_operation
  request req rt =
      let (left, result) = request_inner req rt in
      let done = completed env req.device_id RuntimeFailureOperation.request result left in
      (
        if is_ok result && not (is_bound rt req.device_id)
            then record done { desired_bindings = insert req.device_id tt done.desired_bindings }
            else done,
        result,
      )
