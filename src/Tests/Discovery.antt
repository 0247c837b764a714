-- ===== src/Tests/Discovery.antt =====
-- The theorems on discovery at concrete inputs.
use lemnos.Prelude.{[], codes, lookup, max, min, ok, refl, some, text_ord, ◌<◌, ◌∷◌, ◌≡◌, ◌≤◌, ◌⊎◌}
use lemnos.Core.Descriptor.{validate_descriptor}
use lemnos.Core.Interface.{interface_ord}
use lemnos.Discovery.Inventory.{collect_by_id, diff, events, get, with_observed_at}
use lemnos.Discovery.Parallel.{parallel_worker_count-bounds, run_selected_probes-run_inline}
use lemnos.Discovery.Replay.{replay, replay-events}
use lemnos.Discovery.Run.{parallel_worker_count, run_inline, run_selected_probes}
use lemnos.Discovery.Validity.{IsSnapshot, with_observed_at-IsSnapshot}
use lemnos.Drivers.UsbStats.{number_ord}
use lemnos.Tests.Samples.{chip, context, host, port, selected, snapshot_of}

two-snapshot : with_observed_at (chip ∷ port ∷ []) (some 3) ≡ ok (snapshot_of (chip ∷ port ∷ []))
unfolding with_observed_at validate_descriptor
two-snapshot = refl

with_observed_at-IsSnapshot_example :
    IsSnapshot (snapshot_of (chip ∷ port ∷ []))
    × ((snapshot_of (chip ∷ port ∷ [])).devices ≡ chip ∷ port ∷ [])
    × ((snapshot_of (chip ∷ port ∷ [])).observed_at ≡ some 3)
with_observed_at-IsSnapshot_example =
    with_observed_at-IsSnapshot (chip ∷ port ∷ []) (some 3) two-snapshot

two-IsSnapshot : IsSnapshot (snapshot_of (chip ∷ port ∷ []))
two-IsSnapshot = (with_observed_at-IsSnapshot (chip ∷ port ∷ []) (some 3) two-snapshot).0

replay-events_example :
    lookup (codes "port1") (
      replay
        (collect_by_id [] (chip ∷ []))
        (events (diff (snapshot_of (chip ∷ [])) (snapshot_of (chip ∷ port ∷ [])))))
    ≡ get (snapshot_of (chip ∷ port ∷ [])) (codes "port1")
replay-events_example =
    replay-events (snapshot_of (chip ∷ [])) (snapshot_of (chip ∷ port ∷ [])) (codes "port1")
      two-IsSnapshot

run_selected_probes-run_inline_example :
    run_selected_probes host context
      (selected (codes "a") ∷ selected (codes "b") ∷ selected (codes "c") ∷ [])
    ≡ run_inline context (selected (codes "a") ∷ selected (codes "b") ∷ selected (codes "c") ∷ [])
run_selected_probes-run_inline_example =
    run_selected_probes-run_inline host context
      (selected (codes "a") ∷ selected (codes "b") ∷ selected (codes "c") ∷ [])

parallel_worker_count-bounds_example :
    ((3 ≤ 1) × (parallel_worker_count 8 context 3 ≡ 1))
    ⊎ ((parallel_worker_count 8 context 3 ≤ 3)
        × (parallel_worker_count 8 context 3 ≤ 8)
        × (parallel_worker_count 8 context 3 ≤ max 2 1)
        × (1 < 3)
        × (min 8 1 ≤ parallel_worker_count 8 context 3))
parallel_worker_count-bounds_example = parallel_worker_count-bounds 8 context 3
