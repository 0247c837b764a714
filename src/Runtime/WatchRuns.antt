-- ===== src/Runtime/WatchRuns.antt =====
-- What a watch refresh runs, against a refresh on a context and probes of the caller's choice:
-- crates/lemnos-runtime/src/runtime/watch.rs.
use lemnos.Prelude.{
  All, Bool, Bool-cases, List, Map, Option, [], any, ap, false, filter, filter-All, filter_cong,
  if-cases, inl, inr, is_empty, is_empty-nil, is_some, lookup, map, none, ok, refl, sym, text_ord,
  true, true≢false, ◌∙◌, ◌∷◌, ◌≡◌, ◌⊎◌,
}
use lemnos.Core.Interface.{InterfaceKind, interface_ord}
use lemnos.Discovery.Inventory.{events}
use lemnos.Discovery.Run.{
  DiscoveryContext, DiscoveryProbe, Host, SelectedProbe, run_probes, select_probes,
  selected_interfaces,
}
use lemnos.Discovery.Watch.{InventoryWatchEvent}
use lemnos.Runtime.Defs.{Env, Runtime}
use lemnos.Runtime.Diagnostics.{RuntimeResult}
use lemnos.Runtime.EventLog.{RuntimeWatchRefreshMode}
use lemnos.Runtime.Refresh.{RefreshMode, RuntimeRefreshReport, refresh_run}
use lemnos.Runtime.Watch.{
  RuntimeWatchedRefreshReport, WatchScope, handle_watch_events, is_full, prepare_watch_refresh,
  prepared_scope, run_prepared, watched_report, without_scope,
}
use lemnos.Runtime.WatchScope.{
  ScopeFor, is_relevant, lookup-is_empty, relevant_probes, relevant_probes-nil,
  watch_refresh_scope-ScopeFor,
}

-- A probe that is asked for its relevant interfaces alone.
abbrev pub relevant_part :
    DiscoveryContext → List InventoryWatchEvent → DiscoveryProbe → SelectedProbe
relevant_part c events p = record {
  probe = p;
  interfaces = p.interfaces;
  refreshed_interfaces = filter (is_relevant c events) p.interfaces;
}

is_empty-filter :
    (p : InterfaceKind → Bool) (is : List InterfaceKind)
    → any p is ≡ true
    → is_empty (filter p is) ≡ false
is_empty-filter p [] h = absurd (true≢false (sym h))
is_empty-filter p (i ∷ is) h = elim (Bool-cases (p i)) [
  | inl e ↦ rw e refl
  | inr e ↦ rw e (is_empty-filter p is (rw e at h))
]

module _ (c : DiscoveryContext) (events : List InventoryWatchEvent)
    (requested : Map InterfaceKind (Unit {0}))
    (relevant : (i : InterfaceKind) → is_some (lookup i requested) ≡ is_relevant c events i) where
  selected-relevant :
      (is : List InterfaceKind)
      → is_empty requested ≡ false
      → selected_interfaces (record c { requested_interfaces = requested }) is
        ≡ filter (is_relevant c events) is
  unfolding selected_interfaces
  selected-relevant is full = rw full (filter_cong _ _ is relevant)

  select_probes-relevant :
      (probes : List DiscoveryProbe)
      → is_empty requested ≡ false
      → All (λ p. any (is_relevant c events) p.interfaces ≡ true) probes
      → select_probes (record c { requested_interfaces = requested }) probes
        ≡ map (relevant_part c events) probes
  unfolding select_probes
  select_probes-relevant [] full h = refl
  select_probes-relevant (p ∷ ps) full h =
      rw
        (
          selected-relevant p.interfaces full,
          is_empty-filter (is_relevant c events) p.interfaces h.0,
          select_probes-relevant ps full h.1,
        )
        refl

  requested-is_empty :
      (probes : List DiscoveryProbe)
      → is_empty (relevant_probes c events probes) ≡ false
      → is_empty requested ≡ false
  requested-is_empty probes some_probe = elim (Bool-cases (is_empty requested)) [
    | inr e ↦ e
    | inl e ↦
        let gone =
          relevant_probes-nil c events probes
            (λ i. sym (relevant i) ∙ lookup-is_empty requested i e) in
        absurd (true≢false (sym (ap is_empty gone) ∙ some_probe))
  ]

module _ {C B : Type 0} (env : Env B) (host : Host) (mode : RefreshMode) (c : DiscoveryContext)
    (probes : List DiscoveryProbe) (events : List InventoryWatchEvent) (rt : Runtime C B) where
  -- The report of a refresh, with the events.
  abbrev with_events :
      Runtime C B × RuntimeResult RuntimeRefreshReport
      → Runtime C B × RuntimeResult (Option RuntimeWatchedRefreshReport)
  with_events out = (out.0, watched_report events out.1)

  -- The outcome is that of a refresh with this context and these probes.
  abbrev Refreshes :
      DiscoveryContext
      → List DiscoveryProbe
      → Runtime C B × RuntimeResult (Option RuntimeWatchedRefreshReport)
      → Type 0
  Refreshes asked run out = out ≡ with_events (refresh_run env mode (run_probes host asked run) rt)

  -- What the refresh for one or more events does, by the mode of the configuration.
  abbrev ScopedRun :
      RuntimeWatchRefreshMode
      → Runtime C B × RuntimeResult (Option RuntimeWatchedRefreshReport)
      → Type 0
  ScopedRun scope out =
      ((is_full scope ≡ true) × Refreshes c probes out)
      ⊎ (((scope ≡ RuntimeWatchRefreshMode.strict_scoped)
            × (relevant_probes c events probes ≡ [])
            × (out ≡ (rt, ok none)))
          ⊎ (((scope ≡ RuntimeWatchRefreshMode.fallback_to_full)
                × (relevant_probes c events probes ≡ [])
                × Refreshes c probes out)
              ⊎ ((is_full scope ≡ false)
                  × (is_empty (relevant_probes c events probes) ≡ false)
                  × (requested : Map InterfaceKind (Unit {0})) × ((i : InterfaceKind)
                      → is_some (lookup i requested) ≡ is_relevant c events i)
                  × Refreshes (record c { requested_interfaces = requested })
                      (relevant_probes c events probes) out
                  × (select_probes (record c { requested_interfaces = requested })
                        (relevant_probes c events probes)
                      ≡ map (relevant_part c events) (relevant_probes c events probes)))))

  abbrev pub WatchRun : Runtime C B × RuntimeResult (Option RuntimeWatchedRefreshReport) → Type 0
  WatchRun out =
      ((events ≡ []) × (out ≡ (rt, ok none)))
      ⊎ ((is_empty events ≡ false) × ScopedRun rt.config.watch_refresh_mode out)

  without_scope-ScopedRun :
      (scope : RuntimeWatchRefreshMode)
      → is_full scope ≡ false
      → relevant_probes c events probes ≡ []
      → ScopedRun scope
          (run_prepared env host (prepared_scope events mode (without_scope scope c probes)) rt)
  unfolding run_prepared prepared_scope watched_report
  without_scope-ScopedRun RuntimeWatchRefreshMode.strict_scoped f e = inr (inl (refl, e, refl))
  without_scope-ScopedRun RuntimeWatchRefreshMode.fallback_to_full f e =
      inr (inr (inl (refl, e, refl)))
  without_scope-ScopedRun RuntimeWatchRefreshMode.full f e = absurd (true≢false f)

  scope-ScopedRun :
      (scope : RuntimeWatchRefreshMode) (out : Option WatchScope)
      → ScopeFor scope c probes events out
      → ScopedRun scope (run_prepared env host (prepared_scope events mode out) rt)
  unfolding run_prepared prepared_scope watched_report
  scope-ScopedRun scope out (inl (f, e)) = rw e (inl (f, refl))
  scope-ScopedRun scope out (inr (inl (f, none_relevant, e))) =
      rw e (without_scope-ScopedRun scope f none_relevant)
  scope-ScopedRun scope out (inr (inr (f, some_relevant, requested, e, relevant))) =
      let full = requested-is_empty c events requested relevant probes some_relevant in
      let selected =
        select_probes-relevant c events requested relevant (relevant_probes c events probes) full
          (filter-All _ probes) in
      rw e (inr (inr (inr (f, some_relevant, requested, relevant, refl, selected))))

  -- A watch refresh for no events does nothing. Otherwise, in the full mode, it is a refresh with
  -- the caller's context and probes. In the other modes it is a refresh with the probes that have
  -- an interface which the caller wants and an event touches, in their order, and with the caller's
  -- context but for the requested interfaces, which are all those; the run selects all of these
  -- probes, each for exactly its interfaces among those. With no such probe, the strict mode does
  -- nothing and the other is a refresh with the caller's context and probes.
  pub handle_watch_events-WatchRun :
      WatchRun (handle_watch_events env host mode c probes (ok events) rt)
  unfolding handle_watch_events prepare_watch_refresh run_prepared
  handle_watch_events-WatchRun =
      if-cases (λ p. WatchRun (run_prepared env host p rt)) (is_empty events) _ _
        (λ e. inl (is_empty-nil events e, refl))
        (λ e. inr (
          e,
          scope-ScopedRun rt.config.watch_refresh_mode _
              (watch_refresh_scope-ScopeFor rt.config c probes events),
        ))
