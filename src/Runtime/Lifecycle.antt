-- ===== src/Runtime/Lifecycle.antt =====
-- Shutting the runtime down, and what a runtime that does not run refuses.
use lemnos.Prelude.{
  Bool, List, ap, err, false, if-cases, none, not, refl, text_ord, true, true≢false, ◌≡◌,
}
use lemnos.Core.Ids.{DeviceId}
use lemnos.Core.Interface.{interface_ord}
use lemnos.Core.Request.Kinds.{DeviceRequest}
use lemnos.Discovery.Run.{DiscoveryContext, DiscoveryProbe, Host}
use lemnos.Runtime.Defs.{
  Env, Runtime, ensure_running, has_failure, is_bound, state_of, wants_binding,
}
use lemnos.Runtime.Diagnostics.{RuntimeError}
use lemnos.Runtime.Operations.{bind, bind_device_by_id, refresh_state, shutdown}
use lemnos.Runtime.Refresh.{RefreshMode, refresh_with_mode}
use lemnos.Runtime.Requests.{
  after_binding, bind_for_request, prepare_request_binding, request, request_inner,
  validated_request_device,
}

running-absurd : (b : Bool) → b ≡ false → not b ≡ false → ⊥
running-absurd true h n = true≢false h
running-absurd false h n = true≢false n

module _ {C B : Type 0} (env : Env B) where
  stopped-refresh_state :
      (device_id : DeviceId) (rt : Runtime C B)
      → rt.running ≡ false
      → refresh_state env device_id rt ≡ (rt, err RuntimeError.not_running)
  unfolding refresh_state
  stopped-refresh_state device_id rt h =
      if-cases (λ out. out ≡ (rt, err RuntimeError.not_running)) (not rt.running) _ _ (λ _. refl)
        (λ runs. absurd (running-absurd rt.running h runs))

  stopped-refresh :
      (host : Host) (mode : RefreshMode) (context : DiscoveryContext) (probes : List DiscoveryProbe)
      (rt : Runtime C B)
      → rt.running ≡ false
      → refresh_with_mode env host mode context probes rt ≡ (rt, err RuntimeError.not_running)
  unfolding refresh_with_mode
  stopped-refresh host mode context probes rt h =
      if-cases (λ out. out ≡ (rt, err RuntimeError.not_running)) (not rt.running) _ _ (λ _. refl)
        (λ runs. absurd (running-absurd rt.running h runs))

  stopped-bind_device_by_id :
      (device_id : DeviceId) (rt : Runtime C B)
      → rt.running ≡ false
      → bind_device_by_id env device_id rt ≡ (rt, err RuntimeError.not_running)
  unfolding bind_device_by_id
  stopped-bind_device_by_id device_id rt h =
      if-cases (λ out. out ≡ (rt, err RuntimeError.not_running)) (not rt.running) _ _ (λ _. refl)
        (λ runs. absurd (running-absurd rt.running h runs))

  stopped-bind :
      (device_id : DeviceId) (rt : Runtime C B)
      → rt.running ≡ false
      → (bind env device_id rt).1 ≡ err RuntimeError.not_running
  unfolding bind
  stopped-bind device_id rt h = rw (stopped-bind_device_by_id device_id rt h) refl

  stopped-request_inner :
      (req : DeviceRequest) (rt : Runtime C B)
      → rt.running ≡ false
      → request_inner env req rt ≡ (rt, err RuntimeError.not_running)
  unfolding request_inner prepare_request_binding validated_request_device ensure_running
      bind_for_request after_binding
  stopped-request_inner req rt h =
      let e : validated_request_device req rt ≡ err RuntimeError.not_running = rw h refl in
      rw e refl

-- After a shutdown nothing is bound, wanted, cached or marked as failed, the inventory and the
-- retained events are as they were, and binding a device, a request, reading a state and a refresh
-- are all refused with the error that the runtime is not running.
pub shutdown-refuses :
    {C B : Type 0} (env : Env B) (host : Host) (rt : Runtime C B) (device_id : DeviceId)
    (req : DeviceRequest) (mode : RefreshMode) (context : DiscoveryContext)
    (probes : List DiscoveryProbe)
    → (is_bound (shutdown env rt).0 device_id ≡ false)
      × (wants_binding (shutdown env rt).0 device_id ≡ false)
      × (state_of (shutdown env rt).0 device_id ≡ none)
      × (has_failure (shutdown env rt).0 device_id ≡ false)
      × ((shutdown env rt).0.inventory ≡ rt.inventory)
      × ((shutdown env rt).0.log.events ≡ rt.log.events)
      × ((bind env device_id (shutdown env rt).0).1 ≡ err RuntimeError.not_running)
      × ((request env req (shutdown env rt).0).1 ≡ err RuntimeError.not_running)
      × ((refresh_state env device_id (shutdown env rt).0).1 ≡ err RuntimeError.not_running)
      × ((refresh_with_mode env host mode context probes (shutdown env rt).0).1
          ≡ err RuntimeError.not_running)
unfolding shutdown request
shutdown-refuses env host rt device_id req mode context probes =
    let stopped = (shutdown env rt).0 in
    (
      refl,
      refl,
      refl,
      refl,
      refl,
      refl,
      stopped-bind env device_id stopped refl,
      ap (λ out. out.1) (stopped-request_inner env req stopped refl),
      ap (λ out. out.1) (stopped-refresh_state env device_id stopped refl),
      ap (λ out. out.1) (stopped-refresh env host mode context probes stopped refl),
    )
