-- ===== src/Runtime/Watched.antt =====
-- What a watch refresh leaves of the runtime: crates/lemnos-runtime/src/runtime/watch.rs.
use lemnos.Prelude.{
  List, Option, Result-cases, ap, err, inl, inr, is_ok, none, ok, refl, some, sym, text_ord,
  true≢false, ◌∙◌, ◌≡◌, ◌⊎◌,
}
use lemnos.Core.Interface.{interface_ord}
use lemnos.Discovery.Inventory.{DiscoveryResult, events}
use lemnos.Discovery.Run.{DiscoveryContext, DiscoveryProbe, Host, run_probes}
use lemnos.Discovery.Watch.{InventoryWatchEvent}
use lemnos.Runtime.Atomic.{refresh_run-Kept}
use lemnos.Runtime.Defs.{Env, Runtime}
use lemnos.Runtime.Diagnostics.{RuntimeResult}
use lemnos.Runtime.Refresh.{RefreshMode, refresh_run}
use lemnos.Runtime.Watch.{
  PreparedWatchRefresh, RuntimeWatchedRefreshReport, handle_watch_events, prepare_watch_refresh,
  run_prepared,
}

module _ {C B : Type 0} (env : Env B) where
  -- The operation returned a report, or it left the runtime as it was.
  abbrev pub Watched :
      Runtime C B → Runtime C B × RuntimeResult (Option RuntimeWatchedRefreshReport) → Type 0
  Watched rt out =
      ((report : RuntimeWatchedRefreshReport) × (out.1 ≡ ok (some report))) ⊎ (out.0 ≡ rt)

  run_prepared-Watched :
      (host : Host) (prepared : Option PreparedWatchRefresh) (rt : Runtime C B)
      → Watched rt (run_prepared env host prepared rt)
  unfolding run_prepared
  run_prepared-Watched host none rt = inr refl
  run_prepared-Watched host (some p) rt =
      let run = run_probes host p.scoped_context p.scoped_probes in
      elim (refresh_run-Kept env p.mode run rt) [
        | inr k ↦ inr k
        | inl o ↦ elim (Result-cases (refresh_run env p.mode run rt).1) [
          | inr (e, r) ↦ absurd (true≢false (sym o ∙ ap is_ok r))
          | inl (report, r) ↦
              inl (record { watch_events = p.watch_events; refresh = report }, rw r refl)
        ]
      ]

  -- A watch refresh that returns an error or no report leaves the whole runtime as it was, whatever
  -- the watcher reported and the probes returned.
  pub handle_watch_events-Watched :
      (host : Host) (mode : RefreshMode) (c : DiscoveryContext) (probes : List DiscoveryProbe)
      (events : DiscoveryResult (List InventoryWatchEvent)) (rt : Runtime C B)
      → Watched rt (handle_watch_events env host mode c probes events rt)
  unfolding handle_watch_events
  handle_watch_events-Watched host mode c probes (err e) rt = inr refl
  handle_watch_events-Watched host mode c probes (ok events) rt =
      run_prepared-Watched host (prepare_watch_refresh rt.config c probes events mode) rt
