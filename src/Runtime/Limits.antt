-- ===== src/Runtime/Limits.antt =====
-- The limits on the retained events.
use lemnos.Prelude.{
  Bool-cases, List, Option, [], ap, arith, drop, drop-drop, false, inl, inr, is_some, leb, length,
  length-append, length-drop, none, some, suc, sym, text_ord, true≢false, zero, ℕ, ◌++◌, ◌+◌, ◌-◌,
  ◌<◌, ◌==◌, ◌∙◌, ◌∷◌, ◌≡◌, ◌≢◌, ◌≤◌,
}
use lemnos.Core.Event.{LemnosEvent}
use lemnos.Core.Interface.{interface_ord}
use lemnos.Runtime.Bytes.{Sizes}
use lemnos.Runtime.EventLog.{
  EventLog, RuntimeConfig, drop_count, enforce_event_retention, over_limit, over_option,
}
use lemnos.Runtime.Retention.{IsLog, drained_bytes-total, over_limit-bound, total}

none-ne-some : (n : ℕ) → ◌≢◌ {A = Option ℕ} none (some n)
none-ne-some n e = true≢false (sym (ap is_some e))

some-injective : (m n : ℕ) → some m ≡ some n → m ≡ n
some-injective m n e = cc

total-drop :
    (sizes : Sizes) (n : ℕ) (es : List LemnosEvent) → total sizes (drop n es) ≤ total sizes es
total-drop sizes zero es = omega arith
total-drop sizes (suc n) [] = omega arith
total-drop sizes (suc n) (e ∷ es) = omega (arith, total-drop sizes n es)

module _ (sizes : Sizes) where
  kept_bytes :
      (limit : ℕ) (over : Option ℕ) (dropped bytes : ℕ) (es : List LemnosEvent)
      → over ≡ some limit
      → bytes ≡ total sizes es
      → total sizes (drop (dropped + over_option sizes over bytes (drop dropped es)) es) ≤ limit
  unfolding over_option
  kept_bytes limit none dropped bytes es e h = absurd (none-ne-some limit e)
  kept_bytes limit (some l) dropped bytes es e h =
      let l≡ : l ≡ limit = some-injective l limit e in
      let le =
        over_limit-bound sizes l bytes (drop dropped es)
          (omega (arith, h, total-drop sizes dropped es)) in
      let shape =
        ap (total sizes) (drop-drop (over_limit sizes l bytes (drop dropped es)) dropped es) in
      omega (arith, le, shape, l≡)

  within :
      (config : RuntimeConfig) (log : EventLog)
      → log.retained_event_bytes ≡ total sizes log.events
      → (length (drop (drop_count sizes config log) log.events) ≤ config.max_retained_events)
        × ((limit : ℕ)
            → config.max_retained_event_bytes ≡ some limit
            → total sizes (drop (drop_count sizes config log) log.events) ≤ limit)
  unfolding drop_count
  within config log bytes =
      let size = length-drop (drop_count sizes config log) log.events in
      (
        omega (arith, size),
        λ limit e.
            kept_bytes limit config.max_retained_event_bytes
              (length log.events - config.max_retained_events) log.retained_event_bytes log.events e
              bytes,
      )

  over_limit-pos :
      (limit bytes : ℕ) (es : List LemnosEvent)
      → limit < bytes
      → 0 < length es
      → 0 < over_limit sizes limit bytes es
  unfolding over_limit
  over_limit-pos limit bytes [] over pos = pos
  over_limit-pos limit bytes (e ∷ es) over pos =
      let f : leb bytes limit ≡ false = ground arith in rw f (omega arith)

  over_option-pos :
      (limit : ℕ) (o : Option ℕ) (bytes : ℕ) (es : List LemnosEvent)
      → o ≡ some limit
      → limit < bytes
      → 0 < length es
      → 0 < over_option sizes o bytes es
  unfolding over_option
  over_option-pos limit none bytes es e over pos = absurd (none-ne-some limit e)
  over_option-pos limit (some l) bytes es e over pos =
      over_limit-pos l bytes es (omega (arith, some-injective l limit e, over)) pos

  drop_count-over :
      (config : RuntimeConfig) (limit : ℕ) (log : EventLog)
      → config.max_retained_event_bytes ≡ some limit
      → limit < log.retained_event_bytes
      → 0 < config.max_retained_events
      → config.max_retained_events ≤ length log.events
      → length log.events - config.max_retained_events < drop_count sizes config log
  unfolding drop_count
  drop_count-over config limit log byte_limit over pos le =
      let dropped = length log.events - config.max_retained_events in
      let size = length-drop dropped log.events in
      let more =
        over_option-pos limit config.max_retained_event_bytes log.retained_event_bytes
          (drop dropped log.events) byte_limit over (omega (arith, size)) in
      omega (arith, more)

-- For a log that represents a history, enforcing the limits leaves no more events than the
-- configured number and, when a limit on their bytes is configured, no more bytes than that.
pub enforce_event_retention-bounds :
    (sizes : Sizes) (config : RuntimeConfig) (history : List LemnosEvent) (log : EventLog)
    → IsLog sizes history log
    → (length (enforce_event_retention sizes config log).events ≤ config.max_retained_events)
      × ((limit : ℕ)
          → config.max_retained_event_bytes ≡ some limit
          → (enforce_event_retention sizes config log).retained_event_bytes ≤ limit)
unfolding enforce_event_retention IsLog
enforce_event_retention-bounds sizes config history log h =
    let bytes = h.2 in
    let (few, small) = within sizes config log bytes in
    elim (Bool-cases (drop_count sizes config log == 0)) [
      | inl t ↦
          let zero_count : drop_count sizes config log ≡ 0 = ground arith in
          let all = ap (λ n. total sizes (drop n log.events)) zero_count in
          let len = ap (λ n. length (drop n log.events)) zero_count in
          rw t (omega (arith, few, len), λ limit e. omega (arith, small limit e, all, bytes))
      | inr f ↦ rw f (
        few,
        λ limit e. omega (
          arith,
          small limit e,
          drained_bytes-total sizes (drop_count sizes config log) log.retained_event_bytes
              log.events bytes,
        ),
      )
    ]

-- When the number limit drops the oldest events and the byte limit was exceeded only because of
-- them, fewer events are left than both limits allow: the loop counts the bytes of the events that
-- the number limit drops.
pub enforce_event_retention-over :
    (sizes : Sizes) (config : RuntimeConfig) (limit : ℕ) (log : EventLog)
    (old kept : List LemnosEvent)
    → log.events ≡ old ++ kept
    → config.max_retained_event_bytes ≡ some limit
    → length kept ≡ config.max_retained_events
    → 0 < length kept
    → total sizes kept ≤ limit
    → limit < log.retained_event_bytes
    → length (enforce_event_retention sizes config log).events < length kept
unfolding enforce_event_retention
enforce_event_retention-over sizes config limit log old kept es byte_limit count pos fits over =
    let size = ap length es ∙ length-append old kept in
    let count' =
      drop_count-over sizes config limit log byte_limit over (omega arith) (omega (arith, size)) in
    let shorter = length-drop (drop_count sizes config log) log.events in
    elim (Bool-cases (drop_count sizes config log == 0)) [
      | inl t ↦ absurd (ground (arith, count'))
      | inr f ↦ rw f (omega (arith, shorter, size, count'))
    ]
