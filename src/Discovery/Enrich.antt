-- ===== src/Discovery/Enrich.antt =====
-- crates/lemnos-discovery/src/{run,probe,report}.rs: enrichers, which rewrite a snapshot that a run
-- has built, and the probe that answers from configured devices.
use lemnos.Prelude.{
  List, Result, Text, [], any, err, if◌then◌else◌, is_empty, map_err, none, not, ok, or_else, some,
  text_ord, ◌++◌, ◌>>=◌, ◌∷◌,
}
use lemnos.Core.Descriptor.{DeviceDescriptor}
use lemnos.Core.Error.{CoreError}
use lemnos.Core.Interface.{InterfaceKind, interface_ord}
use lemnos.Discovery.Inventory.{
  DiscoveryError, DiscoveryResult, InventorySnapshot, with_observed_at,
}
use lemnos.Discovery.Report.{DiscoveryRunReport, EnrichmentReport}
use lemnos.Discovery.Run.{
  DiscoveryContext, DiscoveryProbe, Host, ProbeDiscovery, run_probes, selected_interfaces, wants,
}

pub record EnrichmentOutput : Type 0 where
  pub snapshot : InventorySnapshot
  pub notes : List Text

-- The trait `DiscoveryEnricher`.
pub record DiscoveryEnricher : Type 0 where
  pub name : Text
  pub interfaces : List InterfaceKind
  pub enrich : DiscoveryContext → InventorySnapshot → DiscoveryResult EnrichmentOutput

-- `EnrichmentReport::success` and `EnrichmentReport::failure`.
abbrev pub enrichment_success :
    Text → List InterfaceKind → List InterfaceKind → List Text → EnrichmentReport
enrichment_success enricher interfaces refreshed notes = record {
  enricher = enricher;
  interfaces = interfaces;
  refreshed_interfaces = refreshed;
  notes = notes;
  error = none;
}

abbrev pub enrichment_failure :
    Text → List InterfaceKind → List InterfaceKind → Text → EnrichmentReport
enrichment_failure enricher interfaces refreshed error = record {
  enricher = enricher;
  interfaces = interfaces;
  refreshed_interfaces = refreshed;
  notes = [];
  error = some error;
}

abbrev pub Enriched : Type 0
Enriched = InventorySnapshot × List EnrichmentReport

-- The `match` of the loop of `apply_enrichers`, on what the enricher returned.
unfoldable pub enriched :
    Host
    → DiscoveryEnricher
    → List InterfaceKind
    → DiscoveryResult EnrichmentOutput
    → Enriched
    → DiscoveryResult Enriched
unfolding with_observed_at
enriched host e refreshed (ok output) (current, reports) = do
  next ←
      with_observed_at output.snapshot.devices
        (or_else output.snapshot.observed_at current.observed_at)
  ok (next, reports ++ enrichment_success e.name e.interfaces refreshed output.notes ∷ [])
enriched host e refreshed (err error) (current, reports) = ok (
  current,
  reports ++ enrichment_failure e.name e.interfaces refreshed (host.to_string error) ∷ [],
)

-- The loop of `apply_enrichers`, with the snapshot and the reports so far.
unfoldable pub enrich_from :
    Host → DiscoveryContext → List DiscoveryEnricher → Enriched → DiscoveryResult Enriched
unfolding enriched selected_interfaces
enrich_from host c [] acc = ok acc
enrich_from host c (e ∷ es) acc =
    let refreshed = selected_interfaces c e.interfaces in
    if is_empty refreshed
    then enrich_from host c es acc
    else (enriched host e refreshed (e.enrich c acc.0) acc >>= enrich_from host c es)

-- `apply_enrichers`.
unfoldable pub apply_enrichers :
    Host → DiscoveryContext → InventorySnapshot → List DiscoveryEnricher → DiscoveryResult Enriched
unfolding enrich_from
apply_enrichers host c snapshot es = enrich_from host c es (snapshot, [])

-- `run_probes_with_enrichers`.
unfoldable pub run_probes_with_enrichers :
    Host
    → DiscoveryContext
    → List DiscoveryProbe
    → List DiscoveryEnricher
    → DiscoveryResult DiscoveryRunReport
unfolding apply_enrichers run_probes
run_probes_with_enrichers host c probes es = do
  run ← run_probes host c probes
  out ← apply_enrichers host c run.snapshot es
  ok (record run { snapshot = out.0; enrichment_reports = out.1 })

-- `ConfiguredDeviceProbe`, with the trait method and the `Display` that it calls.
pub record ConfiguredDeviceProbe (T : Type 0) : Type 0 where
  pub name : Text
  pub interfaces : List InterfaceKind
  pub configs : List T

module _ {T : Type 0} (configured_descriptors : T → Result CoreError (List DeviceDescriptor))
    (to_string : CoreError → Text) where
  -- The loop over the configurations.
  unfoldable pub configured_from :
      Text → List T → List DeviceDescriptor → DiscoveryResult (List DeviceDescriptor)
  configured_from name [] devices = ok devices
  configured_from name (config ∷ configs) devices = do
    found ←
        map_err (λ source. DiscoveryError.probe_failed name (to_string source))
          (configured_descriptors config)
    configured_from name configs (devices ++ found)

  -- `ConfiguredDeviceProbe::discover`.
  unfoldable pub discover_configured :
      ConfiguredDeviceProbe T → DiscoveryContext → DiscoveryResult ProbeDiscovery
  unfolding configured_from
  discover_configured p c =
      if not (any (λ i. wants c i) p.interfaces)
      then ok (record { devices = []; notes = [] })
      else (configured_from p.name p.configs [] >>= λ devices.
          ok (record { devices = devices; notes = [] }))
