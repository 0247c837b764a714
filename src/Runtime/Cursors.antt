-- ===== src/Runtime/Cursors.antt =====
-- Recording events and polling them by a cursor.
use lemnos.Prelude.{
  Bool-cases, List, [], ap, arith, drop, drop-drop, inl, inr, leb, length, length-append,
  length-drop, ltb, map, max, min, refl, saturating_add, sym, text_ord, true, usize_max, ℕ, ◌++◌,
  ◌+◌, ◌-◌, ◌<◌, ◌==◌, ◌↔◌, ◌∙◌, ◌∷◌, ◌≡◌, ◌≤◌, ◌⊎◌,
}
use lemnos.Core.Event.{LemnosEvent, StateEvent}
use lemnos.Core.Interface.{interface_ord}
use lemnos.Core.State.{DeviceStateSnapshot}
use lemnos.Discovery.Inventory.{InventoryDiff, events}
use lemnos.Runtime.Bytes.{Sizes}
use lemnos.Runtime.EventLog.{
  EventLog, RuntimeConfig, drop_count, enforce_event_retention, event_tail_index, is_cursor_stale,
  notify_event_subscribers, pending_event_count, poll_events_with_status, poll_with_status,
  push_all, push_retained_event, record_inventory_events, record_state,
}
use lemnos.Runtime.Notifier.{
  RuntimeEventNotifierState, RuntimeEventSubscription, advance_to, changed_after, notify_changed,
}
use lemnos.Runtime.Retention.{
  IsLog, drop-all, enforce_event_retention-IsLog, event_tail_index-length,
  notify_event_subscribers-IsLog, push_all-IsLog, push_retained_event-IsLog,
}

-- Caching a state appends its event to the history, whatever the limits drop of the log.
pub record_state-IsLog :
    (sizes : Sizes) (config : RuntimeConfig) (state : DeviceStateSnapshot)
    (history : List LemnosEvent) (log : EventLog)
    → IsLog sizes history log
    → IsLog sizes
        (history ++ LemnosEvent.state (StateEvent.snapshot state) ∷ [])
        (record_state sizes config state log)
unfolding record_state
record_state-IsLog sizes config state history log h =
    let event = LemnosEvent.state (StateEvent.snapshot state) in
    let pushed = push_retained_event sizes event log in
    notify_event_subscribers-IsLog sizes (history ++ event ∷ [])
      (enforce_event_retention sizes config pushed)
      (enforce_event_retention-IsLog sizes config (history ++ event ∷ []) pushed
        (push_retained_event-IsLog sizes history event log h))

-- Recording a diff appends its events to the history, in their order.
pub record_inventory_events-IsLog :
    (sizes : Sizes) (config : RuntimeConfig) (d : InventoryDiff) (history : List LemnosEvent)
    (log : EventLog)
    → IsLog sizes history log
    → IsLog sizes
        (history ++ map LemnosEvent.inventory (events d))
        (record_inventory_events sizes config d log)
unfolding record_inventory_events
record_inventory_events-IsLog sizes config d history log h =
    let new = map LemnosEvent.inventory (events d) in
    let next = enforce_event_retention sizes config (push_all sizes new log) in
    let kept =
      enforce_event_retention-IsLog sizes config (history ++ new) (push_all sizes new log)
        (push_all-IsLog sizes history new log h) in
    elim (Bool-cases (event_tail_index next == event_tail_index log)) [
      | inl t ↦ rw t kept
      | inr f ↦ rw f (notify_event_subscribers-IsLog sizes (history ++ new) next kept)
    ]

drop-clamp :
    (base start : ℕ) (es : List LemnosEvent)
    → base ≤ start
    → drop (base + (min start (length es) - base)) es ≡ drop start es
drop-clamp base start es h = elim (Bool-cases (leb start (length es))) [
  | inl t ↦
      let e : base + (min start (length es) - base) ≡ start = ground arith in ap (λ n. drop n es) e
  | inr f ↦
      sym (drop-all (base + (min start (length es) - base)) es (ground arith))
      ∙ drop-all start es (ground arith)
]

stale_iff : (a b : ℕ) → ltb a b ≡ true ↔ a < b
stale_iff a b = (λ e. ground arith, λ l. ground arith)

-- For every history that the log represents, polling a cursor returns the events of the history
-- from the cursor on, or from the first retained event on if that is later; it moves the cursor to
-- the end of the history, and reports a truncation exactly when an event at or after the cursor is
-- no longer retained.
pub poll_events_with_status-history :
    (sizes : Sizes) (history : List LemnosEvent) (log : EventLog) (cursor : ℕ)
    → IsLog sizes history log
    → ((poll_events_with_status log cursor).1.events
        ≡ drop (max cursor log.event_base_index) history)
      × ((poll_events_with_status log cursor).0 ≡ length history)
      × ((poll_events_with_status log cursor).1.was_truncated ≡ true
          ↔ cursor < log.event_base_index)
unfolding poll_events_with_status IsLog is_cursor_stale
poll_events_with_status-history sizes history log cursor h =
    let tail = event_tail_index-length sizes history log h in
    let k = min (max cursor log.event_base_index) (event_tail_index log) - log.event_base_index in
    let clamp : drop (log.event_base_index + k) history
        ≡ drop (max cursor log.event_base_index) history =
      rw tail
        (drop-clamp log.event_base_index (max cursor log.event_base_index) history (omega arith)) in
    (
      ap (drop k) h.1 ∙ drop-drop k log.event_base_index history ∙ clamp,
      tail,
      stale_iff cursor log.event_base_index,
    )

-- For a log that represents a history, the number of pending events of a cursor is the number of
-- events that polling it returns.
pub pending_event_count-poll :
    (sizes : Sizes) (history : List LemnosEvent) (log : EventLog) (cursor : ℕ)
    → IsLog sizes history log
    → pending_event_count log cursor ≡ length (poll_events_with_status log cursor).1.events
unfolding pending_event_count
pending_event_count-poll sizes history log cursor h =
    let polled = ap length (poll_events_with_status-history sizes history log cursor h).0 in
    let size = length-drop (max cursor log.event_base_index) history in
    let tail = event_tail_index-length sizes history log h in omega (arith, polled, size, tail)

enforced :
    (sizes : Sizes) (config : RuntimeConfig) (log : EventLog)
    → ((enforce_event_retention sizes config log).event_notifier.tail_index
        ≡ log.event_notifier.tail_index)
      × ((enforce_event_retention sizes config log).event_notifier.version
            ≡ log.event_notifier.version
          ⊎ ((enforce_event_retention sizes config log).event_notifier.version
              ≡ saturating_add log.event_notifier.version 1))
unfolding enforce_event_retention notify_changed
enforced sizes config log = elim (Bool-cases (drop_count sizes config log == 0)) [
  | inl t ↦ rw t (refl, inl refl)
  | inr f ↦ rw f (refl, inr refl)
]

advanced :
    (n : RuntimeEventNotifierState) (tail before : ℕ)
    → n.tail_index < tail
    → before ≤ n.version
    → before < usize_max
    → changed_after (advance_to n tail) before ≡ true
unfolding advance_to changed_after
advanced n tail before h le small = ground arith

pushed_notifier :
    (sizes : Sizes) (e : LemnosEvent) (log : EventLog)
    → ((push_retained_event sizes e log).event_notifier.tail_index ≡ log.event_notifier.tail_index)
      × ((push_retained_event sizes e log).event_notifier.version ≡ log.event_notifier.version)
unfolding push_retained_event
pushed_notifier sizes e log = (refl, refl)

told_tail :
    (sizes : Sizes) (history : List LemnosEvent) (log : EventLog)
    → IsLog sizes history log
    → log.event_notifier.tail_index ≤ length history
unfolding IsLog
told_tail sizes history log h = h.3

not_back :
    (next pushed before : ℕ)
    → (next ≡ pushed) ⊎ (next ≡ saturating_add pushed 1)
    → pushed ≡ before
    → before < usize_max
    → before ≤ next
not_back next pushed before (inl e) e' small = omega arith
not_back next pushed before (inr e) e' small = omega arith

-- No wake-up is lost: when a subscription has polled a log that represents a history and a state is
-- cached after that, the guard that the subscription waits on is true, as long as the version of
-- the notifier was below the largest number.
pub record_state-wakes :
    (sizes : Sizes) (config : RuntimeConfig) (state : DeviceStateSnapshot)
    (history : List LemnosEvent) (log : EventLog) (s : RuntimeEventSubscription)
    → IsLog sizes history log
    → log.event_notifier.version < usize_max
    → changed_after
        (record_state sizes config state log).event_notifier
        (poll_with_status s log).0.observed_version
      ≡ true
unfolding record_state poll_with_status notify_event_subscribers
record_state-wakes sizes config state history log s h small =
    let event = LemnosEvent.state (StateEvent.snapshot state) in
    let pushed = push_retained_event sizes event log in
    let next = enforce_event_retention sizes config pushed in
    let (same_tail, version) = enforced sizes config pushed in
    let (known, more) = pushed_notifier sizes event log in
    let tail = event_tail_index-length sizes (history ++ event ∷ []) next (
      enforce_event_retention-IsLog sizes config (history ++ event ∷ []) pushed
        (push_retained_event-IsLog sizes history event log h)) in
    let size = length-append history (event ∷ []) in
    let told = told_tail sizes history log h in
    advanced next.event_notifier (event_tail_index next) log.event_notifier.version
      (omega (arith, same_tail, tail, size, told, known))
      (not_back next.event_notifier.version pushed.event_notifier.version log.event_notifier.version
        version more small)
      small
