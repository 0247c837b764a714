-- ===== src/Runtime/Retention.antt =====
-- The retained events against the history of all events: crates/lemnos-runtime/src/runtime/events.rs.
use lemnos.Prelude.{
  Bool-cases, List, Option, [], ap, append-nil, append_assoc, arith, drop, drop-append, drop-drop,
  if◌then◌else◌, inl, inr, is_empty, leb, length, length-append, length-drop, none, refl, some,
  subst, suc, sum_by, sum_by-append, sym, text_ord, zero, ℕ, ◌++◌, ◌+◌, ◌-◌, ◌==◌, ◌∙◌, ◌∷◌, ◌≡◌,
  ◌≤◌,
}
use lemnos.Core.Event.{LemnosEvent}
use lemnos.Core.Interface.{interface_ord}
use lemnos.Runtime.Bytes.{Sizes, estimated_retained_event_bytes}
use lemnos.Runtime.EventLog.{
  EventLog, RuntimeConfig, drained_bytes, drop_count, enforce_event_retention, event_tail_index,
  notify_event_subscribers, over_limit, over_option, push_all, push_retained_event, take_events,
}
use lemnos.Runtime.Notifier.{RuntimeEventNotifierState, advance_to, notify_changed}

advanced-le :
    (n : RuntimeEventNotifierState) (tail size : ℕ)
    → tail ≡ size
    → n.tail_index ≤ size
    → (advance_to n tail).tail_index ≤ size
unfolding advance_to
advanced-le n tail size e h = ground (arith, e, h)

taken :
    (es : List LemnosEvent) (n : RuntimeEventNotifierState) (size : ℕ)
    → n.tail_index ≤ size
    → (if is_empty es then n else notify_changed n).tail_index ≤ size
unfolding notify_changed
taken [] n size h = h
taken (e ∷ es) n size h = h

pub drop-all : (n : ℕ) (es : List LemnosEvent) → length es ≤ n → [] ≡ drop n es
drop-all zero [] h = refl
drop-all (suc n) [] h = refl
drop-all zero (e ∷ es) h = absurd (omega arith)
drop-all (suc n) (e ∷ es) h = drop-all n es (omega arith)

module _ (sizes : Sizes) where
  abbrev pub total : List LemnosEvent → ℕ
  total es = sum_by (estimated_retained_event_bytes sizes) es

  -- The log keeps a suffix of the history, its byte count is the size of that suffix, and the
  -- notifier has been told of no event that is not in the history.
  unfoldable pub IsLog : List LemnosEvent → EventLog → Type 0
  IsLog history log =
      (log.event_base_index ≤ length history)
      × (log.events ≡ drop log.event_base_index history)
      × (log.retained_event_bytes ≡ total log.events)
      × (log.event_notifier.tail_index ≤ length history)

  pub over_limit-bound :
      (limit bytes : ℕ) (es : List LemnosEvent)
      → total es ≤ bytes
      → total (drop (over_limit sizes limit bytes es) es) ≤ limit
  unfolding over_limit
  over_limit-bound limit bytes [] h = omega arith
  over_limit-bound limit bytes (e ∷ es) h = elim (Bool-cases (leb bytes limit)) [
    | inl t ↦ rw t (ground arith)
    | inr f ↦ rw f (
        over_limit-bound limit (bytes - estimated_retained_event_bytes sizes e) es
          (omega (arith, h)))
  ]

  over_limit-length :
      (limit bytes : ℕ) (es : List LemnosEvent) → over_limit sizes limit bytes es ≤ length es
  unfolding over_limit
  over_limit-length limit bytes [] = omega arith
  over_limit-length limit bytes (e ∷ es) =
      ground (arith, over_limit-length limit (bytes - estimated_retained_event_bytes sizes e) es)

  over_option-length :
      (limit : Option ℕ) (bytes : ℕ) (es : List LemnosEvent)
      → over_option sizes limit bytes es ≤ length es
  unfolding over_option
  over_option-length none bytes es = omega arith
  over_option-length (some limit) bytes es = over_limit-length limit bytes es

  pub drop_count-length :
      (config : RuntimeConfig) (log : EventLog) → drop_count sizes config log ≤ length log.events
  unfolding drop_count
  drop_count-length config log =
      let dropped = length log.events - config.max_retained_events in
      let rest = drop dropped log.events in
      let more = over_option-length config.max_retained_event_bytes log.retained_event_bytes rest in
      let size = length-drop dropped log.events in omega (arith, more, size)

  pub drained_bytes-total :
      (n bytes : ℕ) (es : List LemnosEvent)
      → bytes ≡ total es
      → drained_bytes sizes n es bytes ≡ total (drop n es)
  unfolding drained_bytes
  drained_bytes-total zero bytes es h = h
  drained_bytes-total (suc n) bytes [] h = h
  drained_bytes-total (suc n) bytes (e ∷ es) h =
      drained_bytes-total n (bytes - estimated_retained_event_bytes sizes e) es (omega (arith, h))

  sum_push :
      (es : List LemnosEvent) (e : LemnosEvent) (bytes : ℕ)
      → bytes ≡ total es
      → bytes + estimated_retained_event_bytes sizes e ≡ total (es ++ e ∷ [])
  sum_push es e bytes h =
      let sum = sum_by-append (estimated_retained_event_bytes sizes) es (e ∷ []) in
      omega (arith, sum, h)

  pub push_retained_event-IsLog :
      (history : List LemnosEvent) (e : LemnosEvent) (log : EventLog)
      → IsLog history log
      → IsLog (history ++ e ∷ []) (push_retained_event sizes e log)
  unfolding IsLog push_retained_event
  push_retained_event-IsLog history e log (base, es, bytes, tail) =
      let size = length-append history (e ∷ []) in
      (
        omega (arith, base, size),
        ap (λ l. l ++ e ∷ []) es ∙ sym (drop-append log.event_base_index history (e ∷ []) base),
        sum_push log.events e log.retained_event_bytes bytes,
        omega (arith, tail, size),
      )

  pub push_all-IsLog :
      (history es : List LemnosEvent) (log : EventLog)
      → IsLog history log
      → IsLog (history ++ es) (push_all sizes es log)
  unfolding push_all
  push_all-IsLog history [] log h = subst (λ l. IsLog l log) (sym (append-nil history)) h
  push_all-IsLog history (e ∷ es) log h =
      subst (λ l. IsLog l (push_all sizes es (push_retained_event sizes e log)))
        (append_assoc history (e ∷ []) es)
        (push_all-IsLog (history ++ e ∷ []) es (push_retained_event sizes e log)
          (push_retained_event-IsLog history e log h))

  drain-IsLog :
      (history : List LemnosEvent) (log : EventLog) (count : ℕ)
      → count ≤ length log.events
      → IsLog history log
      → IsLog history (record {
        event_base_index = log.event_base_index + count;
        retained_event_bytes = drained_bytes sizes count log.events log.retained_event_bytes;
        events = drop count log.events;
        event_notifier = notify_changed log.event_notifier;
      })
  unfolding IsLog notify_changed
  drain-IsLog history log count le (base, es, bytes, tail) =
      let size = ap length es ∙ length-drop log.event_base_index history in
      (
        omega (arith, base, size, le),
        ap (drop count) es ∙ drop-drop count log.event_base_index history,
        drained_bytes-total count log.retained_event_bytes log.events bytes,
        tail,
      )

  pub enforce_event_retention-IsLog :
      (config : RuntimeConfig) (history : List LemnosEvent) (log : EventLog)
      → IsLog history log
      → IsLog history (enforce_event_retention sizes config log)
  unfolding enforce_event_retention
  enforce_event_retention-IsLog config history log h =
      elim (Bool-cases (drop_count sizes config log == 0)) [
        | inl t ↦ rw t h
        | inr f ↦
            rw f (
              drain-IsLog history log (drop_count sizes config log) (drop_count-length config log)
                h)
      ]

  pub event_tail_index-length :
      (history : List LemnosEvent) (log : EventLog)
      → IsLog history log
      → event_tail_index log ≡ length history
  unfolding event_tail_index IsLog
  event_tail_index-length history log (base, es, bytes, tail) =
      let size = ap length es ∙ length-drop log.event_base_index history in
      omega (arith, size, base)

  pub notify_event_subscribers-IsLog :
      (history : List LemnosEvent) (log : EventLog)
      → IsLog history log
      → IsLog history (notify_event_subscribers log)
  unfolding notify_event_subscribers IsLog
  notify_event_subscribers-IsLog history log h =
      let at = event_tail_index-length history log h in
      (h.0, h.1, h.2, advanced-le log.event_notifier (event_tail_index log) (length history) at h.3)

  -- For a log that represents a history, taking the events leaves a log of the same history, and
  -- returns what the log had kept of it.
  pub take_events-IsLog :
      (history : List LemnosEvent) (log : EventLog)
      → IsLog history log
      → IsLog history (take_events log).0
        × ((take_events log).1 ≡ drop log.event_base_index history)
  unfolding take_events IsLog
  take_events-IsLog history log (base, es, bytes, tail) =
      let size = ap length es ∙ length-drop log.event_base_index history in
      (
        (
          omega (arith, base, size),
          drop-all (log.event_base_index + length log.events) history (omega (arith, base, size)),
          refl,
          taken log.events log.event_notifier (length history) tail,
        ),
        es,
      )
