-- ===== src/Runtime/Rebinds.antt =====
-- What the automatic rebinds of a refresh do and report: `rebind_tracked_devices` of
-- crates/lemnos-runtime/src/runtime/refresh.rs.
use lemnos.Prelude.{
  All, Bool, List, Ordered, [], all, ap, append-nil, append_assoc, false, filter, if◌then◌else◌,
  inl, inr, is_ok, is_some, lookup, not, refl, same, some, sym, text_ord, true, true≢false, ◌++◌,
  ◌∙◌, ◌∷◌, ◌≡◌, ◌⊎◌,
}
use lemnos.Core.Ids.{DeviceId}
use lemnos.Core.Interface.{interface_ord}
use lemnos.Runtime.Binding.{bind_device_by_id-Outcome}
use lemnos.Runtime.Defs.{Env, Runtime, completed, has_failure, is_bound}
use lemnos.Runtime.Diagnostics.{RuntimeFailureOperation, RuntimeFailureRecord}
use lemnos.Runtime.Failures.{complete_operation-lookup}
use lemnos.Runtime.Operations.{bind_device_by_id}
use lemnos.Runtime.Refresh.{RuntimeRebindReport, empty_rebinds, rebind_tracked_devices}

module _ {C B : Type 0} where
  -- The device is bound and has no failure record, or its record is of a rebind.
  abbrev pub Settled : Runtime C B → DeviceId → Type 0
  Settled rt id =
      ((is_bound rt id ≡ true) × (has_failure rt id ≡ false))
      ⊎ ((r : RuntimeFailureRecord) × (lookup id rt.failures ≡ some r)
          × (r.operation ≡ RuntimeFailureOperation.rebind))

  -- What rebinding other devices keeps of a device.
  abbrev Unmoved : Runtime C B → Runtime C B → DeviceId → Type 0
  Unmoved rt left id =
      (is_bound rt id ≡ true → is_bound left id ≡ true)
      × (lookup id left.failures ≡ lookup id rt.failures)

  Settled-Unmoved :
      (rt left : Runtime C B) (id : DeviceId) → Unmoved rt left id → Settled rt id → Settled left id
  Settled-Unmoved rt left id (b, f) (inl (bound, free)) = inl (b bound, rw f free)
  Settled-Unmoved rt left id (b, f) (inr (r, found, op)) = inr (r, f ∙ found, op)

joined :
    (succeeded failed : Bool) (id : DeviceId) (xs ys : List DeviceId)
    → succeeded ≡ not failed
    → ((xs ++ (if succeeded then id ∷ [] else [])) ++ ys
        ≡ xs ++ (if not failed then id ∷ ys else ys))
      × ((xs ++ (if succeeded then [] else id ∷ [])) ++ ys ≡ xs ++ (if failed then id ∷ ys else ys))
joined true false id xs ys h = (append_assoc xs (id ∷ []) ys, ap (λ zs. zs ++ ys) (append-nil xs))
joined false true id xs ys h = (ap (λ zs. zs ++ ys) (append-nil xs), append_assoc xs (id ∷ []) ys)
joined true true id xs ys h = absurd (true≢false h)
joined false false id xs ys h = absurd (true≢false (sym h))

module _ {C B : Type 0} (env : Env B) where
  -- One turn of the loop.
  abbrev rebound_runtime : DeviceId → Runtime C B → Runtime C B
  rebound_runtime id rt =
      let (bound, result) = bind_device_by_id env id rt in
      completed env id RuntimeFailureOperation.rebind result bound

  turn-Settled :
      (id : DeviceId) (rt : Runtime C B)
      → Settled (rebound_runtime id rt) id
        × (is_ok (bind_device_by_id env id rt).1 ≡ not (has_failure (rebound_runtime id rt) id))
  turn-Settled id rt =
      let out = bind_device_by_id env id rt in
      let (others, gone, recorded) =
        complete_operation-lookup env.failure id id RuntimeFailureOperation.rebind out.1
          out.0.failures in
      elim (bind_device_by_id-Outcome env id rt) [
        | inl (o, b, d, k) ↦
            let free = ap is_some (gone (rw o refl)) in
            (inl (b, free), ap is_ok o ∙ sym (ap not free))
        | inr (e, o, s) ↦
            let (r, found, described) = recorded e o in
            (inr (r, found, described.0), ap is_ok o ∙ sym (ap (λ x. not (is_some x)) found))
      ]

  turn-Unmoved :
      (id other : DeviceId) (rt : Runtime C B)
      → same other id ≡ false
      → Unmoved rt (rebound_runtime id rt) other
  turn-Unmoved id other rt ne =
      let out = bind_device_by_id env id rt in
      let kept =
        (complete_operation-lookup env.failure id other RuntimeFailureOperation.rebind out.1
            out.0.failures).0
          ne in
      elim (bind_device_by_id-Outcome env id rt) [
        | inl (o, b, d, k) ↦ (k.0 other, kept ∙ ap (lookup other) k.1)
        | inr (e, o, s) ↦ (λ h. rw s h, kept ∙ ap (λ r. lookup other r.failures) s)
      ]

  rebinds-Unmoved :
      (ids : List DeviceId) (rt : Runtime C B) (report : RuntimeRebindReport) (other : DeviceId)
      → All (λ id. same other id ≡ false) ids
      → Unmoved rt (rebind_tracked_devices env ids (rt, report)).0 other
  unfolding rebind_tracked_devices
  rebinds-Unmoved [] rt report other h = (λ b. b, refl)
  rebinds-Unmoved (id ∷ ids) rt report other h =
      let first = turn-Unmoved id other rt h.0 in
      let rest = rebinds-Unmoved ids (rebound_runtime id rt) _ other h.1 in
      (λ b. rest.0 (first.0 b), rest.1 ∙ first.1)

  -- A target whose rebind succeeded goes to the one list, the others to the other.
  rebinds-Settled :
      (ids : List DeviceId) (rt : Runtime C B) (report : RuntimeRebindReport)
      → Ordered (λ x y. same x y ≡ false) ids
      → let (left, made) = rebind_tracked_devices env ids (rt, report) in
        (made.attempted ≡ report.attempted ++ ids)
        × (made.rebound ≡ report.rebound ++ filter (λ id. not (has_failure left id)) ids)
        × (made.failed ≡ report.failed ++ filter (has_failure left) ids)
        × All (Settled left) ids
  unfolding rebind_tracked_devices
  rebinds-Settled [] rt report o = (
    sym (append-nil report.attempted),
    sym (append-nil report.rebound),
    sym (append-nil report.failed),
    tt,
  )
  rebinds-Settled (id ∷ ids) rt report o =
      let result = (bind_device_by_id env id rt).1 in
      let next : RuntimeRebindReport = record {
        attempted = report.attempted ++ id ∷ [];
        rebound = report.rebound ++ (if is_ok result then id ∷ [] else []);
        failed = report.failed ++ (if is_ok result then [] else id ∷ []);
      } in
      let after = rebound_runtime id rt in
      let (left, made) = rebind_tracked_devices env ids (after, next) in
      let (settled, answer) = turn-Settled id rt in
      let unmoved = rebinds-Unmoved ids after next id o.0 in
      let (all, succeeded, failed, others) = rebinds-Settled ids after next o.1 in
      let same_answer : is_ok result ≡ not (has_failure left id) =
        answer ∙ sym (ap (λ x. not (is_some x)) unmoved.1) in
      (
        all ∙ append_assoc report.attempted (id ∷ []) ids,
        succeeded ∙ (joined (is_ok result) (has_failure left id) id report.rebound _ same_answer).0,
        failed ∙ (joined (is_ok result) (has_failure left id) id report.failed _ same_answer).1,
        (Settled-Unmoved after left id unmoved settled, others),
      )

-- Rebinding distinct targets attempts each of them once, in their order, whatever fails. Afterwards
-- every target either is bound and has no failure record, or has one of a rebind; the report lists
-- the first as rebound and the second as failed, in the order of the targets.
pub rebind_tracked_devices-Settled :
    {C B : Type 0} (env : Env B) (targets : List DeviceId) (rt : Runtime C B)
    → Ordered (λ x y. same x y ≡ false) targets
    → let (left, made) = rebind_tracked_devices env targets (rt, empty_rebinds) in
      (made.attempted ≡ targets)
      × (made.rebound ≡ filter (λ id. not (has_failure left id)) targets)
      × (made.failed ≡ filter (has_failure left) targets)
      × All (Settled left) targets
rebind_tracked_devices-Settled env targets rt o = rebinds-Settled env targets rt empty_rebinds o
