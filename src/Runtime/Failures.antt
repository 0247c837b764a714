-- ===== src/Runtime/Failures.antt =====
-- What completing an operation does to the failure records.
use lemnos.Prelude.{
  Option, add_u64, err, false, is_ok, lookup, lookup-insert_ne, lookup-insert_self, lookup-remove,
  none, ok, ok-ne-err, or_else, refl, remove, same, same_refl, some, subst, sym, text_ord, true,
  true≢false, ℕ, ◌∙◌, ◌≡◌,
}
use lemnos.Core.Ids.{DeviceId}
use lemnos.Core.Interface.{interface_ord}
use lemnos.Core.State.{TimestampMs}
use lemnos.Runtime.Diagnostics.{
  FailureEnv, Failures, RuntimeError, RuntimeFailureOperation, RuntimeFailureRecord, RuntimeResult,
  classify_failure, complete_operation, driver_id_from_error, new_failure, next_failure,
  record_repeat,
}

abbrev occurrences : Option RuntimeFailureRecord → ℕ
occurrences none = 0
occurrences (some r) = r.occurrence_count

abbrev first_time : Option RuntimeFailureRecord → Option TimestampMs
first_time none = none
first_time (some r) = r.first_occurred_at

-- What a record says after an error of an operation, when `old` was the record before.
abbrev Describes :
    FailureEnv
    → DeviceId
    → RuntimeFailureOperation
    → RuntimeError
    → Option RuntimeFailureRecord
    → RuntimeFailureRecord
    → Type 0
Describes env device_id operation e old r =
    (r.operation ≡ operation)
    × (r.category ≡ classify_failure e)
    × (r.driver_id ≡ driver_id_from_error e)
    × (r.message ≡ env.to_string e)
    × (r.occurrence_count ≡ add_u64 (occurrences old) 1)
    × (r.first_occurred_at ≡ or_else (first_time old) (env.current_timestamp_ms device_id))

made :
    (env : FailureEnv) (device_id : DeviceId) (operation : RuntimeFailureOperation)
    (e : RuntimeError) (old : Option RuntimeFailureRecord)
    → Describes env device_id operation e old (next_failure env old device_id operation e)
unfolding next_failure new_failure record_repeat
made env device_id operation e none = (refl, refl, refl, refl, refl, refl)
made env device_id operation e (some r) = (refl, refl, refl, refl, refl, refl)

-- Completing an operation changes the record of no other device. After a success the device has no
-- record. After a failure it has one, of this operation and the error's category, message and
-- driver, with one occurrence if it had none before and otherwise one more than before (as a
-- 64-bit number), and the time of the first occurrence that had a time is kept.
pub complete_operation-lookup :
    {A : Type 0} (env : FailureEnv) (device_id other : DeviceId)
    (operation : RuntimeFailureOperation) (result : RuntimeResult A) (failures : Failures)
    → (same other device_id ≡ false
        → lookup other (complete_operation env device_id operation result failures)
          ≡ lookup other failures)
      × (is_ok result ≡ true
          → lookup device_id (complete_operation env device_id operation result failures) ≡ none)
      × ((e : RuntimeError)
          → result ≡ err e
          → (r : RuntimeFailureRecord) × (lookup device_id
                (complete_operation env device_id operation result failures)
              ≡ some r)
            × Describes env device_id operation e (lookup device_id failures) r)
unfolding complete_operation
complete_operation-lookup env device_id other operation (ok a) failures = (
  λ ne. lookup-remove device_id other failures ∙ rw ne refl,
  λ _. gone,
  λ e h. absurd (ok-ne-err h),
)
  where
    gone : lookup device_id (remove device_id failures) ≡ none
    gone = lookup-remove device_id device_id failures ∙ rw (same_refl device_id) refl
complete_operation-lookup env device_id other operation (err e) failures = (
  λ ne.
      lookup-insert_ne device_id other
        (next_failure env (lookup device_id failures) device_id operation e) failures ne,
  λ h. absurd (true≢false (sym h)),
  λ e' h.
      let e≡ : e ≡ e' = cc in
      (
        next_failure env (lookup device_id failures) device_id operation e,
        lookup-insert_self device_id
            (next_failure env (lookup device_id failures) device_id operation e) failures,
        subst
            (λ x.
              Describes env device_id operation x (lookup device_id failures)
                (next_failure env (lookup device_id failures) device_id operation e))
            e≡ (made env device_id operation e (lookup device_id failures)),
      ),
)
