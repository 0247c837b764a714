-- ===== src/Tests/Watch.antt =====
-- The theorems on enrichers, runs of probes and watch refreshes at concrete inputs.
use lemnos.Prelude.{List, [], codes, is_ok, ok, refl, some, sort_by, text_ord, true, ◌↔◌, ◌∷◌, ◌≡◌}
use lemnos.Core.Descriptor.{validate_descriptor}
use lemnos.Core.Interface.{InterfaceKind, interface_ord}
use lemnos.Discovery.Enrich.{DiscoveryEnricher, apply_enrichers, enrichment_success}
use lemnos.Discovery.Enriched.{IsEnriched, apply_enrichers-IsSnapshot}
use lemnos.Discovery.Inventory.{with_observed_at}
use lemnos.Discovery.Outcome.{
  AllValid, found_devices, reports_on, run_probes-is_ok, run_probes-outcome,
}
use lemnos.Discovery.Report.{DiscoveryRunReport}
use lemnos.Discovery.Run.{DiscoveryProbe, process_discovery, run_probes, select_probes}
use lemnos.Discovery.Validity.{DistinctIds, IsSnapshot, with_observed_at-IsSnapshot}
use lemnos.Discovery.Watch.{InventoryWatchEvent}
use lemnos.Drivers.UsbStats.{number_ord}
use lemnos.Runtime.Refresh.{RefreshMode}
use lemnos.Runtime.Watch.{handle_watch_events}
use lemnos.Runtime.WatchRuns.{WatchRun, handle_watch_events-WatchRun}
use lemnos.Runtime.Watched.{Watched, handle_watch_events-Watched}
use lemnos.Tests.Samples.{chip, context, env, host, port, sample_probe, sample_runtime, snapshot_of}

abbrev enricher : DiscoveryEnricher
enricher = record {
  name = codes "labels";
  interfaces = InterfaceKind.uart ∷ [];
  enrich = λ _ s. ok (record { snapshot = s; notes = [] });
}

abbrev probes : List DiscoveryProbe
probes = sample_probe (codes "a") (chip ∷ []) ∷ sample_probe (codes "b") (port ∷ []) ∷ []

one-snapshot : with_observed_at (chip ∷ []) (some 3) ≡ ok (snapshot_of (chip ∷ []))
unfolding with_observed_at validate_descriptor
one-snapshot = refl

one-IsSnapshot : IsSnapshot (snapshot_of (chip ∷ []))
one-IsSnapshot = (with_observed_at-IsSnapshot (chip ∷ []) (some 3) one-snapshot).0

enriched_run :
    apply_enrichers host context (snapshot_of (chip ∷ [])) (enricher ∷ [])
    ≡ ok (
      snapshot_of (chip ∷ []),
      enrichment_success (codes "labels") (InterfaceKind.uart ∷ []) (InterfaceKind.uart ∷ []) []
          ∷ [],
    )
unfolding apply_enrichers with_observed_at validate_descriptor
enriched_run = refl

apply_enrichers-IsSnapshot_example : IsEnriched (codes "labels" ∷ []) (
  snapshot_of (chip ∷ []),
  enrichment_success (codes "labels") (InterfaceKind.uart ∷ []) (InterfaceKind.uart ∷ []) [] ∷ [],
)
unfolding apply_enrichers
apply_enrichers-IsSnapshot_example =
    apply_enrichers-IsSnapshot host context (snapshot_of (chip ∷ [])) (enricher ∷ []) one-IsSnapshot
      enriched_run

run_probes-is_ok_example : (is_ok (run_probes host context probes) ≡ true) ↔ (
    AllValid (found_devices context (select_probes context probes))
    × DistinctIds (found_devices context (select_probes context probes)))
run_probes-is_ok_example = run_probes-is_ok host context probes

abbrev both_found : DiscoveryRunReport
both_found = record {
  snapshot = snapshot_of (chip ∷ port ∷ []);
  probe_reports = reports_on host context (select_probes context probes);
  enrichment_reports = [];
}

both_run : run_probes host context probes ≡ ok both_found
unfolding run_probes with_observed_at validate_descriptor select_probes process_discovery sort_by
both_run = refl

run_probes-outcome_example :
    (chip ∷ port ∷ [] ≡ found_devices context (select_probes context probes))
    × (both_found.probe_reports ≡ reports_on host context (select_probes context probes))
    × IsSnapshot both_found.snapshot
run_probes-outcome_example = run_probes-outcome host context probes both_run

abbrev touched_gpio : List InventoryWatchEvent
touched_gpio =
    record { watcher = codes "udev"; interfaces = InterfaceKind.gpio ∷ []; paths = [] } ∷ []

handle_watch_events-WatchRun_example :
    WatchRun env host RefreshMode.full context probes touched_gpio sample_runtime (
      handle_watch_events env host RefreshMode.full context probes (ok touched_gpio) sample_runtime)
handle_watch_events-WatchRun_example =
    handle_watch_events-WatchRun env host RefreshMode.full context probes touched_gpio
      sample_runtime

handle_watch_events-Watched_example :
    Watched env sample_runtime (
      handle_watch_events env host RefreshMode.full context probes (ok touched_gpio) sample_runtime)
handle_watch_events-Watched_example =
    handle_watch_events-Watched env host RefreshMode.full context probes (ok touched_gpio)
      sample_runtime
