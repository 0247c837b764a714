-- ===== src/Discovery/Outcome.antt =====
-- What a run of the probes returns: crates/lemnos-discovery/src/run.rs.
use lemnos.Prelude.{
  >>=-eq-ok, All, All-append, All-append_inv, List, Result-cases, Text, [], ap, append-nil,
  append_assoc, err, inl, inr, is_ok, length, map, map_err-eq-ok, ok, ok-injective, refl, subst,
  suc, sym, text_ord, true, true≢false, ℕ, ◌++◌, ◌>>=◌, ◌↔◌, ◌∙◌, ◌∷◌, ◌≡◌,
}
use lemnos.Core.Descriptor.{DeviceDescriptor, validate_descriptor}
use lemnos.Core.Interface.{interface_ord}
use lemnos.Discovery.Inventory.{DiscoveryResult, with_observed_at}
use lemnos.Discovery.Parallel.{run_selected_probes-run_inline}
use lemnos.Discovery.Report.{DiscoveryRunReport, ProbeReport, probe_failure, probe_success}
use lemnos.Discovery.Run.{
  DiscoveryContext, DiscoveryProbe, Gathered, Host, ProbeDiscovery, SelectedProbe, check_found,
  enumerate_from, process_discovery, process_probe_result, process_results, run_indexed, run_inline,
  run_probes, run_selected_probes, select_probes,
}
use lemnos.Discovery.Validity.{
  DistinctIds, IsSnapshot, with_observed_at-IsSnapshot, with_observed_at-eq,
}

-- The devices that the probes find which do not fail, in the order of the probes.
abbrev found_by : DiscoveryResult ProbeDiscovery → List DeviceDescriptor
found_by (ok found) = found.devices
found_by (err e) = []

abbrev pub found_devices : DiscoveryContext → List SelectedProbe → List DeviceDescriptor
found_devices c [] = []
found_devices c (p ∷ ps) = found_by (p.probe.discover c) ++ found_devices c ps

-- The report on one probe.
abbrev report_on : Host → SelectedProbe → DiscoveryResult ProbeDiscovery → ProbeReport
report_on host p (ok found) =
    probe_success p.probe.name p.interfaces p.refreshed_interfaces (length found.devices)
      (map (λ d. d.id) found.devices) found.notes
report_on host p (err e) =
    probe_failure p.probe.name p.interfaces p.refreshed_interfaces (host.to_string e)

abbrev pub reports_on : Host → DiscoveryContext → List SelectedProbe → List ProbeReport
reports_on host c [] = []
reports_on host c (p ∷ ps) = report_on host p (p.probe.discover c) ∷ reports_on host c ps

abbrev pub AllValid : List DeviceDescriptor → Type 0
AllValid = All λ d. validate_descriptor d ≡ ok tt

check_found-eq :
    (probe : Text) (ds : List DeviceDescriptor) → AllValid ds → check_found probe ds ≡ ok tt
unfolding check_found
check_found-eq probe [] h = refl
check_found-eq probe (d ∷ ds) h = rw h.0 (check_found-eq probe ds h.1)

check_found-AllValid :
    (probe : Text) (ds : List DeviceDescriptor) {u : Unit {0}}
    → check_found probe ds ≡ ok u
    → AllValid ds
unfolding check_found
check_found-AllValid probe [] h = tt
check_found-AllValid probe (d ∷ ds) h =
    let (v, mapped, rest) = >>=-eq-ok _ _ h in
    (map_err-eq-ok _ (validate_descriptor d) mapped, check_found-AllValid probe ds rest)

process_discovery-eq :
    (host : Host) (p : SelectedProbe) (r : DiscoveryResult ProbeDiscovery) (acc : Gathered)
    → AllValid (found_by r)
    → process_discovery host p r acc ≡ ok (acc.0 ++ found_by r, acc.1 ++ report_on host p r ∷ [])
unfolding process_discovery
process_discovery-eq host p (ok found) acc h = rw (check_found-eq p.probe.name found.devices h)
process_discovery-eq host p (err e) acc h = rw (append-nil acc.0)

process_discovery-AllValid :
    (host : Host) (p : SelectedProbe) (r : DiscoveryResult ProbeDiscovery) (acc : Gathered)
    {out : Gathered}
    → process_discovery host p r acc ≡ ok out
    → AllValid (found_by r)
unfolding process_discovery
process_discovery-AllValid host p (ok found) acc h =
    let (_, checked, _) = >>=-eq-ok (check_found p.probe.name found.devices) _ h in
    check_found-AllValid p.probe.name found.devices checked
process_discovery-AllValid host p (err e) acc h = tt

-- A run in which every device that was found is valid goes through all the probes.
process_results-eq :
    (host : Host) (c : DiscoveryContext) (index : ℕ) (ps : List SelectedProbe) (acc : Gathered)
    → AllValid (found_devices c ps)
    → process_results host (map (run_indexed c) (enumerate_from index ps)) acc
      ≡ ok (acc.0 ++ found_devices c ps, acc.1 ++ reports_on host c ps)
unfolding process_results process_probe_result
process_results-eq host c index [] acc h = rw (append-nil acc.0, append-nil acc.1)
process_results-eq host c index (p ∷ ps) acc h =
    let r = p.probe.discover c in
    let (here, rest) = All-append_inv _ (found_by r) (found_devices c ps) h in
    rw (process_discovery-eq host p r acc here) (
      process_results-eq host c (suc index) ps
        (acc.0 ++ found_by r, acc.1 ++ report_on host p r ∷ []) rest
      ∙ rw (append_assoc acc.0, append_assoc acc.1))

process_results-AllValid :
    (host : Host) (c : DiscoveryContext) (index : ℕ) (ps : List SelectedProbe) (acc : Gathered)
    {out : Gathered}
    → process_results host (map (run_indexed c) (enumerate_from index ps)) acc ≡ ok out
    → AllValid (found_devices c ps)
unfolding process_results process_probe_result
process_results-AllValid host c index [] acc h = tt
process_results-AllValid host c index (p ∷ ps) acc h =
    let (next, first, rest) = >>=-eq-ok _ _ h in
    All-append _ (found_by (p.probe.discover c)) (found_devices c ps)
      (process_discovery-AllValid host p (p.probe.discover c) acc first)
      (process_results-AllValid host c (suc index) ps next rest)

run_probes-parts :
    (host : Host) (c : DiscoveryContext) (probes : List DiscoveryProbe)
    → AllValid (found_devices c (select_probes c probes))
    → run_probes host c probes ≡ (
        with_observed_at (found_devices c (select_probes c probes)) c.observed_at >>= λ snapshot.
        ok (record {
          snapshot = snapshot;
          probe_reports = reports_on host c (select_probes c probes);
          enrichment_reports = [];
        }))
unfolding run_probes run_inline
run_probes-parts host c probes v =
    let ps = select_probes c probes in
    rw (run_selected_probes-run_inline host c ps, process_results-eq host c 0 ps ([], []) v) refl

run_probes-AllValid :
    (host : Host) (c : DiscoveryContext) (probes : List DiscoveryProbe) {run : DiscoveryRunReport}
    → run_probes host c probes ≡ ok run
    → AllValid (found_devices c (select_probes c probes))
unfolding run_probes run_inline
run_probes-AllValid host c probes h =
    let ps = select_probes c probes in
    let (_, gathered, _) =
      >>=-eq-ok (process_results host (run_selected_probes host c ps) ([], [])) _ h in
    process_results-AllValid host c 0 ps ([], [])
      (rw (run_selected_probes-run_inline host c ps) at gathered)

-- A run that succeeds, on however many threads, has the devices that the probes found, in the order
-- of the probes, and one report on each probe that was selected, in that order.
pub run_probes-outcome :
    (host : Host) (c : DiscoveryContext) (probes : List DiscoveryProbe) {run : DiscoveryRunReport}
    → run_probes host c probes ≡ ok run
    → (run.snapshot.devices ≡ found_devices c (select_probes c probes))
      × (run.probe_reports ≡ reports_on host c (select_probes c probes))
      × IsSnapshot run.snapshot
run_probes-outcome host c probes {run} h =
    let ps = select_probes c probes in
    let v = run_probes-AllValid host c probes h in
    let (snapshot, built, made) =
      >>=-eq-ok (with_observed_at (found_devices c ps) c.observed_at) _
        (sym (run_probes-parts host c probes v) ∙ h) in
    let (snap, devices, _) = with_observed_at-IsSnapshot (found_devices c ps) c.observed_at built in
    subst
      (λ r.
        (r.snapshot.devices ≡ found_devices c ps)
        × (r.probe_reports ≡ reports_on host c ps)
        × IsSnapshot r.snapshot)
      (ok-injective made) (devices, refl, snap)

-- A run of probes succeeds exactly when the devices that its probes found are valid and have
-- distinct identifiers: a probe that fails does not abort it.
pub run_probes-is_ok :
    (host : Host) (c : DiscoveryContext) (probes : List DiscoveryProbe)
    → (is_ok (run_probes host c probes) ≡ true) ↔ (
        AllValid (found_devices c (select_probes c probes))
        × DistinctIds (found_devices c (select_probes c probes)))
run_probes-is_ok host c probes = (
  λ h. elim (Result-cases (run_probes host c probes)) [
    | inr (e, r) ↦ absurd (true≢false (sym h ∙ ap is_ok r))
    | inl (run, r) ↦
        let (devices, _, snap) = run_probes-outcome host c probes r in
        subst (λ ds. AllValid ds × DistinctIds ds) devices (snap.valid, snap.distinct)
  ],
  λ (v, d). rw (run_probes-parts host c probes v, with_observed_at-eq _ c.observed_at v d) refl,
)
