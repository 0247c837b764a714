-- ===== src/Runtime/WatchScope.antt =====
-- The scope of a watch refresh, its probes and interfaces:
-- crates/lemnos-runtime/src/runtime/watch.rs.
use lemnos.Prelude.{
  Bool, Bool-cases, List, Map, Option, [], any, any-false, any_cong, arith, false, filter,
  filter-false, filter_cong, if-cases, if◌then◌else◌, inl, inr, insert, is_empty, is_empty-nil,
  is_some, lookup, lookup-insert, refl, same, same-eq, same_sym, some, sym, text_ord, true, ◌&&◌,
  ◌||◌, ◌∙◌, ◌∷◌, ◌≡◌, ◌⊎◌,
}
use lemnos.Core.Interface.{InterfaceKind, interface_ord}
use lemnos.Discovery.Inventory.{events}
use lemnos.Discovery.Run.{DiscoveryContext, DiscoveryProbe, wants}
use lemnos.Discovery.Watch.{InventoryWatchEvent, touches}
use lemnos.Runtime.EventLog.{RuntimeConfig, RuntimeWatchRefreshMode}
use lemnos.Runtime.Watch.{
  WatchScope, collect_interfaces, intersection, is_full, scope_for, touched_interfaces,
  watch_refresh_scope, without_scope,
}

-- The interface is wanted by the caller and touched by one of the events.
abbrev pub is_relevant : DiscoveryContext → List InventoryWatchEvent → InterfaceKind → Bool
is_relevant c events i = any (touches i) events && wants c i

-- The probes with a relevant interface.
abbrev pub relevant_probes :
    DiscoveryContext → List InventoryWatchEvent → List DiscoveryProbe → List DiscoveryProbe
relevant_probes c events probes = filter (λ p. any (is_relevant c events) p.interfaces) probes

lookup-collect_interfaces :
    (i : InterfaceKind) (is : List InterfaceKind) (set : Map InterfaceKind (Unit {0}))
    → is_some (lookup i (collect_interfaces is set))
      ≡ (any (λ j. same j i) is || is_some (lookup i set))
unfolding collect_interfaces
lookup-collect_interfaces i [] set = refl
lookup-collect_interfaces i (j ∷ is) set =
    lookup-collect_interfaces i is (insert j tt set)
    ∙ rw (lookup-insert, same_sym i j) (ground arith)

lookup-touched_interfaces :
    (i : InterfaceKind) (events : List InventoryWatchEvent) (set : Map InterfaceKind (Unit {0}))
    → is_some (lookup i (touched_interfaces events set))
      ≡ (any (touches i) events || is_some (lookup i set))
unfolding touched_interfaces
lookup-touched_interfaces i [] set = refl
lookup-touched_interfaces i (e ∷ es) set =
    lookup-touched_interfaces i es (collect_interfaces e.interfaces set)
    ∙ rw (lookup-collect_interfaces i e.interfaces set) (ground arith)

lookup-intersection :
    (i : InterfaceKind) (a b : Map InterfaceKind (Unit {0}))
    → is_some (lookup i (intersection a b)) ≡ (is_some (lookup i b) && is_some (lookup i a))
lookup-intersection i [] b = ground arith
lookup-intersection i ((j, u) ∷ a) b = elim (Bool-cases (same i j)) [
  | inl e ↦ rw (same-eq i j e) (ground (arith, lookup-intersection j a b))
  | inr e ↦ ground (arith, lookup-intersection i a b)
]

-- The set that `watch_refresh_scope` builds.
abbrev requested_scope : DiscoveryContext → List InventoryWatchEvent → Map InterfaceKind (Unit {0})
requested_scope c events =
    let touched = touched_interfaces events [] in
    if is_empty c.requested_interfaces then touched else intersection c.requested_interfaces touched

lookup-touched :
    (i : InterfaceKind) (events : List InventoryWatchEvent)
    → is_some (lookup i (touched_interfaces events [])) ≡ any (touches i) events
lookup-touched i events = lookup-touched_interfaces i events [] ∙ ground arith

lookup-requested_scope :
    (c : DiscoveryContext) (events : List InventoryWatchEvent) (i : InterfaceKind)
    → is_some (lookup i (requested_scope c events)) ≡ is_relevant c events i
lookup-requested_scope c events i = elim (Bool-cases (is_empty c.requested_interfaces)) [
  | inl e ↦ rw (e, lookup-touched i events) (ground arith)
  | inr e ↦
      rw
        (
          e,
          lookup-intersection i c.requested_interfaces (touched_interfaces events []),
          lookup-touched i events,
        )
        (ground arith)
]

pub lookup-is_empty :
    (m : Map InterfaceKind (Unit {0})) (i : InterfaceKind)
    → is_empty m ≡ true
    → is_some (lookup i m) ≡ false
lookup-is_empty [] i h = refl
lookup-is_empty (e ∷ m) i h = cc

pub relevant_probes-nil :
    (c : DiscoveryContext) (events : List InventoryWatchEvent) (probes : List DiscoveryProbe)
    → ((i : InterfaceKind) → is_relevant c events i ≡ false)
    → relevant_probes c events probes ≡ []
relevant_probes-nil c events probes h =
    filter-false _ probes (λ p. any-false (is_relevant c events) p.interfaces h)

scoped-relevant_probes :
    (c : DiscoveryContext) (events : List InventoryWatchEvent) (probes : List DiscoveryProbe)
    → filter (λ p. any (λ i. is_some (lookup i (requested_scope c events))) p.interfaces) probes
      ≡ relevant_probes c events probes
scoped-relevant_probes c events probes =
    filter_cong _ _ probes (λ p. any_cong _ _ p.interfaces (lookup-requested_scope c events))

-- A scope: the caller's in the full mode, and otherwise the probes with a relevant interface, asked
-- for the relevant interfaces alone. Where there is none, the mode decides.
abbrev pub ScopeFor :
    RuntimeWatchRefreshMode
    → DiscoveryContext
    → List DiscoveryProbe
    → List InventoryWatchEvent
    → Option WatchScope
    → Type 0
ScopeFor mode c probes events out =
    ((is_full mode ≡ true) × (out ≡ some (c, probes)))
    ⊎ (((is_full mode ≡ false)
          × (relevant_probes c events probes ≡ [])
          × (out ≡ without_scope mode c probes))
        ⊎ ((is_full mode ≡ false)
            × (is_empty (relevant_probes c events probes) ≡ false)
            × (requested : Map InterfaceKind (Unit {0})) × (out
                ≡ some (
                  record c { requested_interfaces = requested },
                  relevant_probes c events probes,
                ))
            × ((i : InterfaceKind) → is_some (lookup i requested) ≡ is_relevant c events i)))

scope_for-ScopeFor :
    (mode : RuntimeWatchRefreshMode) (c : DiscoveryContext) (probes : List DiscoveryProbe)
    (events : List InventoryWatchEvent)
    → is_full mode ≡ false
    → ScopeFor mode c probes events (scope_for mode c probes (requested_scope c events))
unfolding scope_for
scope_for-ScopeFor mode c probes events scoped =
    if-cases (ScopeFor mode c probes events) (is_empty (requested_scope c events)) _ _
      (λ e. inr (
        inl (
          scoped,
          relevant_probes-nil c events probes
              (λ i. sym (lookup-requested_scope c events i) ∙ lookup-is_empty _ i e),
          refl,
        )))
      (λ _. rw (scoped-relevant_probes c events probes) (
        if-cases (ScopeFor mode c probes events) (is_empty (relevant_probes c events probes)) _ _
          (λ e. inr (inl (scoped, is_empty-nil _ e, refl)))
          (λ e.
            inr
              (inr (scoped, e, requested_scope c events, refl, lookup-requested_scope c events)))))

-- The scope for the events, whatever the mode.
pub watch_refresh_scope-ScopeFor :
    (config : RuntimeConfig) (c : DiscoveryContext) (probes : List DiscoveryProbe)
    (events : List InventoryWatchEvent)
    → ScopeFor config.watch_refresh_mode c probes events
        (watch_refresh_scope config c probes events)
unfolding watch_refresh_scope
watch_refresh_scope-ScopeFor config c probes events =
    if-cases (ScopeFor config.watch_refresh_mode c probes events)
      (is_full config.watch_refresh_mode) _ _ (λ e. inl (e, refl))
      (λ scoped.
        if-cases (ScopeFor config.watch_refresh_mode c probes events)
          (is_empty (touched_interfaces events [])) _ _
          (λ e. inr (
            inl (
              scoped,
              relevant_probes-nil c events probes
                  (λ i. rw (sym (lookup-touched i events) ∙ lookup-is_empty _ i e) (ground arith)),
              refl,
            )))
          (λ _. scope_for-ScopeFor config.watch_refresh_mode c probes events scoped))
