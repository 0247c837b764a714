-- ===== src/Discovery/Enriched.antt =====
-- What enrichers leave: crates/lemnos-discovery/src/run.rs, `apply_enrichers`.
use lemnos.Prelude.{
  >>=-eq-ok, Bool-cases, List, Text, [], all, append-nil, append_assoc, err, filter, inl, inr,
  is_empty, map, map-append, not, ok, ok-injective, or_else, refl, subst, sym, text_ord, ◌++◌, ◌∙◌,
  ◌∷◌, ◌≡◌,
}
use lemnos.Core.Interface.{InterfaceKind, interface_ord}
use lemnos.Discovery.Enrich.{
  DiscoveryEnricher, Enriched, EnrichmentOutput, apply_enrichers, enrich_from, enriched,
}
use lemnos.Discovery.Inventory.{DiscoveryResult, InventorySnapshot, with_observed_at}
use lemnos.Discovery.Run.{DiscoveryContext, Host, selected_interfaces}
use lemnos.Discovery.Validity.{IsSnapshot, with_observed_at-IsSnapshot}

-- The names of the enrichers that a context selects.
abbrev pub selected_enrichers : DiscoveryContext → List DiscoveryEnricher → List Text
selected_enrichers c es =
    map (λ e. e.name) (filter (λ e. not (is_empty (selected_interfaces c e.interfaces))) es)

-- A snapshot that keeps the rules of the inventory, with reports on these enrichers.
abbrev pub IsEnriched : List Text → Enriched → Type 0
IsEnriched names out = IsSnapshot out.0 × (map (λ x. x.enricher) out.1 ≡ names)

enriched-IsSnapshot :
    (host : Host) (e : DiscoveryEnricher) (refreshed : List InterfaceKind)
    (r : DiscoveryResult EnrichmentOutput) (acc : Enriched) {out : Enriched}
    → IsSnapshot acc.0
    → enriched host e refreshed r acc ≡ ok out
    → IsEnriched (map (λ x. x.enricher) acc.1 ++ e.name ∷ []) out
unfolding enriched
enriched-IsSnapshot host e refreshed (ok output) acc snap h =
    let (next, built, made) =
      >>=-eq-ok
        (with_observed_at output.snapshot.devices
          (or_else output.snapshot.observed_at acc.0.observed_at))
        _ h in
    subst (IsEnriched _) (ok-injective made)
      ((with_observed_at-IsSnapshot output.snapshot.devices _ built).0, map-append _ acc.1 _)
enriched-IsSnapshot host e refreshed (err error) acc snap h =
    subst (IsEnriched _) (ok-injective h) (snap, map-append _ acc.1 _)

enrich_from-IsSnapshot :
    (host : Host) (c : DiscoveryContext) (es : List DiscoveryEnricher) (acc : Enriched)
    {out : Enriched}
    → IsSnapshot acc.0
    → enrich_from host c es acc ≡ ok out
    → IsEnriched (map (λ x. x.enricher) acc.1 ++ selected_enrichers c es) out
unfolding enrich_from
enrich_from-IsSnapshot host c [] acc snap h =
    subst (IsEnriched _) (ok-injective h) (snap, sym (append-nil _))
enrich_from-IsSnapshot host c (e ∷ es) acc snap h =
    elim (Bool-cases (is_empty (selected_interfaces c e.interfaces))) [
      | inl b ↦ rw b (enrich_from-IsSnapshot host c es acc snap (rw b at h))
      | inr b ↦
          let (next, first, rest) =
            >>=-eq-ok (enriched host e (selected_interfaces c e.interfaces) (e.enrich c acc.0) acc)
              _ (rw b at h) in
          let (snap', names) = enriched-IsSnapshot host e _ (e.enrich c acc.0) acc snap first in
          let (final, all) = enrich_from-IsSnapshot host c es next snap' rest in
          (final, rw b (all ∙ rw (names, append_assoc (map (λ x. x.enricher) acc.1)) refl))
    ]

-- Enrichers that return leave a snapshot of valid devices with distinct identifiers, also when some
-- of them fail, and one report on each enricher that the context selects, in their order.
pub apply_enrichers-IsSnapshot :
    (host : Host) (c : DiscoveryContext) (snapshot : InventorySnapshot)
    (es : List DiscoveryEnricher) {out : Enriched}
    → IsSnapshot snapshot
    → apply_enrichers host c snapshot es ≡ ok out
    → IsEnriched (selected_enrichers c es) out
unfolding apply_enrichers
apply_enrichers-IsSnapshot host c snapshot es snap h =
    enrich_from-IsSnapshot host c es (snapshot, []) snap h
