-- ===== src/Runtime/Binding.antt =====
-- What binding a device leaves.
use lemnos.Prelude.{
  In-find, Map, Option, ap, arith, err, false, if-cases, inl, inr, insert, is_ok, is_some, lookup,
  lookup-insert, lookup-insert_self, lookup-remove, none, not, ok, refl, remove, same, same-eq,
  same_refl, some, subst, text_ord, true, ◌≡◌, ◌⊎◌,
}
use lemnos.Core.Descriptor.{DeviceDescriptor}
use lemnos.Core.Ids.{DeviceId}
use lemnos.Core.Interface.{interface_ord}
use lemnos.Core.State.{DeviceStateSnapshot}
use lemnos.Discovery.Inventory.{get}
use lemnos.Runtime.Defs.{Env, Runtime, cache_state, has_failure, is_bound, wants_binding}
use lemnos.Runtime.Diagnostics.{
  RuntimeError, RuntimeFailureOperation, RuntimeResult, complete_operation, next_failure,
}
use lemnos.Runtime.Operations.{
  PreparedBindingOutput, bind, bind_device_by_id, bind_discovered_device, bind_found,
  prepare_and_bind, store_bound_device, store_result,
}

is_some-insert :
    {B : Type 0} (id : DeviceId) (b : B) (m : Map DeviceId B) (other : DeviceId)
    → is_some (lookup other m) ≡ true
    → is_some (lookup other (insert id b m)) ≡ true
is_some-insert id b m other h = rw (lookup-insert id other b m) (ground arith)

module _ {C B : Type 0} (env : Env B) where
  -- No device is unbound, and the failure records are the same.
  abbrev pub Keeps : Runtime C B → Runtime C B → Type 0
  Keeps rt left =
      ((other : DeviceId) → is_bound rt other ≡ true → is_bound left other ≡ true)
      × (left.failures ≡ rt.failures)

  kept : (rt : Runtime C B) → Keeps rt rt
  kept rt = (λ other h. h, refl)

  -- An outcome of a bind of a device: the device is bound, or nothing changed.
  abbrev pub Outcome : DeviceId → Runtime C B → Runtime C B × RuntimeResult (Unit {0}) → Type 0
  Outcome device_id rt out =
      ((out.1 ≡ ok tt)
        × (is_bound out.0 device_id ≡ true)
        × (out.0.desired_bindings ≡ rt.desired_bindings)
        × Keeps rt out.0)
      ⊎ ((e : RuntimeError) × (out.1 ≡ err e) × (out.0 ≡ rt))

  stored :
      (device_id : DeviceId) (b : B) (state : Option DeviceStateSnapshot) (rt : Runtime C B)
      → (is_bound
            (store_bound_device env device_id (record { bound = b; initial_state = state }) rt)
            device_id
          ≡ true)
        × ((store_bound_device env device_id
              (record { bound = b; initial_state = state })
              rt).desired_bindings
            ≡ rt.desired_bindings)
        × Keeps rt
            (store_bound_device env device_id (record { bound = b; initial_state = state }) rt)
  unfolding store_bound_device cache_state
  stored device_id b none rt = (
    ap is_some (lookup-insert_self device_id b rt.bindings),
    refl,
    (is_some-insert device_id b rt.bindings, refl),
  )
  stored device_id b (some s) rt = (
    ap is_some (lookup-insert_self device_id b rt.bindings),
    refl,
    (is_some-insert device_id b rt.bindings, refl),
  )

  store_result-Outcome :
      (device_id : DeviceId) (r : RuntimeResult (PreparedBindingOutput B)) (rt : Runtime C B)
      → Outcome device_id rt (store_result env device_id r rt)
  unfolding store_result
  store_result-Outcome device_id (err e) rt = inr (e, refl, refl)
  store_result-Outcome device_id (ok output) rt =
      let (b, d, k) = stored device_id output.bound output.initial_state rt in inl (refl, b, d, k)

  pub bind_discovered_device-Outcome :
      (d : DeviceDescriptor) (rt : Runtime C B) → Outcome d.id rt (bind_discovered_device env d rt)
  unfolding bind_discovered_device
  bind_discovered_device-Outcome d rt =
      if-cases (Outcome d.id rt) (not rt.running) _ _
        (λ stopped. inr (RuntimeError.not_running, refl, refl))
        (λ runs.
          if-cases (Outcome d.id rt) (is_bound rt d.id) _ _
            (λ bound. inl (refl, bound, refl, kept rt))
            (λ free. store_result-Outcome d.id (prepare_and_bind env rt d) rt))

  bind_found-Outcome :
      (device_id : DeviceId) (found : Option DeviceDescriptor) (rt : Runtime C B)
      → ((d : DeviceDescriptor) → found ≡ some d → d.id ≡ device_id)
      → Outcome device_id rt (bind_found env device_id found rt)
  unfolding bind_found
  bind_found-Outcome device_id none rt h = inr (RuntimeError.unknown_device device_id, refl, refl)
  bind_found-Outcome device_id (some d) rt h =
      subst (λ id. Outcome id rt (bind_discovered_device env d rt)) (h d refl)
        (bind_discovered_device-Outcome d rt)

  pub bind_device_by_id-Outcome :
      (device_id : DeviceId) (rt : Runtime C B)
      → Outcome device_id rt (bind_device_by_id env device_id rt)
  unfolding bind_device_by_id get
  bind_device_by_id-Outcome device_id rt =
      if-cases (Outcome device_id rt) (not rt.running) _ _
        (λ stopped. inr (RuntimeError.not_running, refl, refl))
        (λ runs.
          if-cases (Outcome device_id rt) (is_bound rt device_id) _ _
            (λ bound. inl (refl, bound, refl, kept rt))
            (λ free. bind_found-Outcome device_id (get rt.inventory device_id) rt (λ d e.
              same-eq d.id device_id
                (In-find (λ x. same x.id device_id) rt.inventory.devices d e).1)))

  bound_after :
      (device_id : DeviceId) (rt : Runtime C B) (out : Runtime C B × RuntimeResult (Unit {0}))
      → Outcome device_id rt out
      → ((is_ok out.1 ≡ true)
          × (is_bound out.0 device_id ≡ true)
          × (is_some (
                lookup device_id (
                  complete_operation env.failure device_id RuntimeFailureOperation.bind out.1
                    out.0.failures))
              ≡ false))
        ⊎ ((is_ok out.1 ≡ false)
            × (out.0 ≡ rt)
            × (is_some (
                  lookup device_id (
                    complete_operation env.failure device_id RuntimeFailureOperation.bind out.1
                      out.0.failures))
                ≡ true))
  unfolding complete_operation
  bound_after device_id rt (left, r) (inl (o, b, d, k)) =
      let gone : is_some (lookup device_id (remove device_id left.failures)) ≡ false =
        rw (lookup-remove device_id device_id left.failures, same_refl device_id) refl in
      rw o (inl (refl, b, gone))
  bound_after device_id rt (left, r) (inr (e, o, s)) = rw o (
      inr (
        refl,
        s,
        rw
            (lookup-insert_self device_id
              (next_failure env.failure (lookup device_id left.failures) device_id
                RuntimeFailureOperation.bind e)
              left.failures)
            refl,
      ))

-- Binding a device has two outcomes. When it succeeds, the device is bound, its binding is desired
-- and it has no failure record. When it fails, the device has a failure record, and the bindings,
-- the desired bindings, the states and the retained events are as they were.
pub bind-outcome :
    {C B : Type 0} (env : Env B) (device_id : DeviceId) (rt : Runtime C B)
    → ((is_ok (bind env device_id rt).1 ≡ true)
        × (is_bound (bind env device_id rt).0 device_id ≡ true)
        × (wants_binding (bind env device_id rt).0 device_id ≡ true)
        × (has_failure (bind env device_id rt).0 device_id ≡ false))
      ⊎ ((is_ok (bind env device_id rt).1 ≡ false)
          × (has_failure (bind env device_id rt).0 device_id ≡ true)
          × ((bind env device_id rt).0.bindings ≡ rt.bindings)
          × ((bind env device_id rt).0.desired_bindings ≡ rt.desired_bindings)
          × ((bind env device_id rt).0.states ≡ rt.states)
          × ((bind env device_id rt).0.log ≡ rt.log))
unfolding bind
bind-outcome env device_id rt =
    let out = bind_device_by_id env device_id rt in
    let failures =
      complete_operation env.failure device_id RuntimeFailureOperation.bind out.1 out.0.failures in
    elim (bound_after env device_id rt out (bind_device_by_id-Outcome env device_id rt)) [
      | inl (o, b, f) ↦
          rw o
            (inl (refl, b, ap is_some (lookup-insert_self device_id tt out.0.desired_bindings), f))
      | inr (o, s, f) ↦ rw o (
          inr (
            refl,
            f,
            ap (λ r. r.bindings) s,
            ap (λ r. r.desired_bindings) s,
            ap (λ r. r.states) s,
            ap (λ r. r.log) s,
          ))
    ]
