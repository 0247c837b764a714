-- ===== src/Runtime/Notifier.antt =====
-- crates/lemnos-runtime/src/subscription.rs: cursors and the notifier that wakes subscribers. The
-- condition variable is its guard: whether a waiter may return.
use lemnos.Prelude.{Bool, if◌then◌else◌, leb, ltb, saturating_add, text_ord, ℕ, ◌-◌}
use lemnos.Core.Interface.{interface_ord}

pub record RuntimeEventNotifierState : Type 0 where
  pub tail_index : ℕ
  pub version : ℕ

abbrev pub default_notifier : RuntimeEventNotifierState
default_notifier = record { tail_index = 0; version = 0 }

unfoldable pub advance_to : RuntimeEventNotifierState → ℕ → RuntimeEventNotifierState
advance_to n tail =
    if leb tail n.tail_index
    then n
    else record { tail_index = tail; version = saturating_add n.version 1 }

unfoldable pub notify_changed : RuntimeEventNotifierState → RuntimeEventNotifierState
notify_changed n = record n { version = saturating_add n.version 1 }

-- The guard of `wait_for_change_after`: it returns `true` at once in a state that passes it, and a
-- waiter that a change wakes returns in the first state that passes.
unfoldable pub changed_after : RuntimeEventNotifierState → ℕ → Bool
changed_after n observed_version = ltb observed_version n.version

-- A cursor is its `next_index`. The notifier of a subscription is its runtime's.
pub record RuntimeEventSubscription : Type 0 where
  pub cursor : ℕ
  pub observed_version : ℕ

-- `RuntimeEventSubscription::new`.
unfoldable pub new_subscription : ℕ → RuntimeEventNotifierState → RuntimeEventSubscription
new_subscription cursor n = record {
  cursor = cursor;
  observed_version = (if ltb cursor n.tail_index then n.version - 1 else n.version);
}
