-- ===== src/Runtime/EventLog.antt =====
-- crates/lemnos-runtime/src/runtime/events.rs and config.rs: the retained events. `EventLog` has the
-- four fields of `Runtime` that these functions change. Indices and byte counts have no upper
-- bound here.
use lemnos.Prelude.{
  Bool, List, Option, [], drop, if◌then◌else◌, is_empty, leb, length, ltb, map, max, min, none,
  some, suc, text_ord, true, zero, ℕ, ◌++◌, ◌+◌, ◌-◌, ◌==◌, ◌∷◌,
}
use lemnos.Core.Event.{LemnosEvent, StateEvent}
use lemnos.Core.Interface.{interface_ord}
use lemnos.Core.State.{DeviceStateSnapshot}
use lemnos.Discovery.Inventory.{InventoryDiff, events}
use lemnos.Runtime.Bytes.{Sizes, estimated_retained_event_bytes}
use lemnos.Runtime.Notifier.{
  RuntimeEventNotifierState, RuntimeEventSubscription, advance_to, default_notifier,
  new_subscription, notify_changed,
}

pub data RuntimeWatchRefreshMode : Type 0 where
  strict_scoped fallback_to_full full : RuntimeWatchRefreshMode

pub record RuntimeConfig : Type 0 where
  pub auto_bind_on_request : Bool
  pub auto_rebind_on_refresh : Bool
  pub cache_state_on_bind : Bool
  pub cache_state_on_request : Bool
  pub max_retained_events : ℕ
  pub max_retained_event_bytes : Option ℕ
  pub watch_refresh_mode : RuntimeWatchRefreshMode

-- `RuntimeConfig::new`.
abbrev pub default_config : RuntimeConfig
default_config = record {
  auto_bind_on_request = true;
  auto_rebind_on_refresh = true;
  cache_state_on_bind = true;
  cache_state_on_request = true;
  max_retained_events = 1024;
  max_retained_event_bytes = none;
  watch_refresh_mode = RuntimeWatchRefreshMode.strict_scoped;
}

pub record EventLog : Type 0 where
  pub event_base_index : ℕ
  pub retained_event_bytes : ℕ
  pub events : List LemnosEvent
  pub event_notifier : RuntimeEventNotifierState

abbrev pub empty_log : EventLog
empty_log = record {
  event_base_index = 0;
  retained_event_bytes = 0;
  events = [];
  event_notifier = default_notifier;
}

-- `RuntimeEventPoll`.
pub record RuntimeEventPoll : Type 0 where
  pub events : List LemnosEvent
  pub was_truncated : Bool

unfoldable pub event_tail_index : EventLog → ℕ
event_tail_index log = log.event_base_index + length log.events

-- `subscribe`, `subscribe_from_start` and their blocking forms.
abbrev pub subscribe : EventLog → ℕ
subscribe log = event_tail_index log

abbrev pub subscribe_from_start : EventLog → ℕ
subscribe_from_start log = log.event_base_index

unfoldable pub subscribe_blocking : EventLog → RuntimeEventSubscription
unfolding new_subscription
subscribe_blocking log = new_subscription (event_tail_index log) log.event_notifier

unfoldable pub subscribe_from_start_blocking : EventLog → RuntimeEventSubscription
unfolding new_subscription
subscribe_from_start_blocking log = new_subscription log.event_base_index log.event_notifier

unfoldable pub is_cursor_stale : EventLog → ℕ → Bool
is_cursor_stale log cursor = ltb cursor log.event_base_index

unfoldable pub pending_event_count : EventLog → ℕ → ℕ
unfolding event_tail_index
pending_event_count log cursor = event_tail_index log - max cursor log.event_base_index

-- `poll_events_with_status`, with the cursor that it leaves.
unfoldable pub poll_events_with_status : EventLog → ℕ → ℕ × RuntimeEventPoll
unfolding event_tail_index is_cursor_stale
poll_events_with_status log cursor =
    let start_index = min (max cursor log.event_base_index) (event_tail_index log) in
    (
      event_tail_index log,
      record {
        events = drop (start_index - log.event_base_index) log.events;
        was_truncated = is_cursor_stale log cursor;
      },
    )

-- `RuntimeEventSubscription::poll_with_status`.
unfoldable pub poll_with_status :
    RuntimeEventSubscription → EventLog → RuntimeEventSubscription × RuntimeEventPoll
unfolding poll_events_with_status
poll_with_status s log =
    let (cursor, poll) = poll_events_with_status log s.cursor in
    (record { cursor = cursor; observed_version = log.event_notifier.version }, poll)

unfoldable pub take_events : EventLog → EventLog × List LemnosEvent
unfolding notify_changed
take_events log = (
  record {
    event_base_index = log.event_base_index + length log.events;
    retained_event_bytes = 0;
    events = [];
    event_notifier =
        (if is_empty log.events then log.event_notifier else notify_changed log.event_notifier);
  },
  log.events,
)

unfoldable pub notify_event_subscribers : EventLog → EventLog
unfolding advance_to event_tail_index
notify_event_subscribers log = record log {
  event_notifier = advance_to log.event_notifier (event_tail_index log);
}

module _ (sizes : Sizes) where
  unfoldable pub push_retained_event : LemnosEvent → EventLog → EventLog
  unfolding estimated_retained_event_bytes
  push_retained_event event log = record log {
    retained_event_bytes = log.retained_event_bytes + estimated_retained_event_bytes sizes event;
    events = log.events ++ event ∷ [];
  }

  unfoldable pub push_all : List LemnosEvent → EventLog → EventLog
  unfolding push_retained_event
  push_all [] log = log
  push_all (e ∷ es) log = push_all es (push_retained_event e log)

  -- The loop of `enforce_event_retention` over the events behind those that the count drops: how
  -- many more it drops.
  unfoldable pub over_limit : ℕ → ℕ → List LemnosEvent → ℕ
  over_limit limit retained_bytes [] = 0
  over_limit limit retained_bytes (e ∷ es) =
      if leb retained_bytes limit
      then 0
      else suc (over_limit limit (retained_bytes - estimated_retained_event_bytes sizes e) es)

  unfoldable pub over_option : Option ℕ → ℕ → List LemnosEvent → ℕ
  unfolding over_limit
  over_option none retained_bytes es = 0
  over_option (some limit) retained_bytes es = over_limit limit retained_bytes es

  unfoldable pub drop_count : RuntimeConfig → EventLog → ℕ
  unfolding over_option
  drop_count config log =
      let dropped = length log.events - config.max_retained_events in
      dropped
      + over_option config.max_retained_event_bytes log.retained_event_bytes
          (drop dropped log.events)

  -- The byte count when the first events of the list are drained, each taken off it.
  unfoldable pub drained_bytes : ℕ → List LemnosEvent → ℕ → ℕ
  drained_bytes zero es bytes = bytes
  drained_bytes (suc n) [] bytes = bytes
  drained_bytes (suc n) (e ∷ es) bytes =
      drained_bytes n es (bytes - estimated_retained_event_bytes sizes e)

  unfoldable pub enforce_event_retention : RuntimeConfig → EventLog → EventLog
  unfolding drop_count drained_bytes notify_changed
  enforce_event_retention config log =
      let count = drop_count config log in
      if count == 0 then log else record {
        event_base_index = log.event_base_index + count;
        retained_event_bytes = drained_bytes count log.events log.retained_event_bytes;
        events = drop count log.events;
        event_notifier = notify_changed log.event_notifier;
      }

  -- What `cache_state` does to the log.
  unfoldable pub record_state : RuntimeConfig → DeviceStateSnapshot → EventLog → EventLog
  unfolding push_retained_event enforce_event_retention notify_event_subscribers
  record_state config state log = notify_event_subscribers (
      enforce_event_retention config
        (push_retained_event (LemnosEvent.state (StateEvent.snapshot state)) log))

  unfoldable pub record_inventory_events : RuntimeConfig → InventoryDiff → EventLog → EventLog
  unfolding push_all enforce_event_retention notify_event_subscribers event_tail_index events
  record_inventory_events config d log =
      let next =
        enforce_event_retention config (push_all (map LemnosEvent.inventory (events d)) log) in
      if event_tail_index next == event_tail_index log then next else notify_event_subscribers next
