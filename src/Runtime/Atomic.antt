-- ===== src/Runtime/Atomic.antt =====
-- A refresh that fails: crates/lemnos-runtime/src/runtime/refresh.rs.
use lemnos.Prelude.{
  List, ap, err, if-cases, inl, inr, is_ok, not, ok, refl, sym, text_ord, true, true≢false, ◌∙◌,
  ◌≡◌, ◌⊎◌,
}
use lemnos.Core.Interface.{interface_ord}
use lemnos.Discovery.Inventory.{DiscoveryResult, InventorySnapshot}
use lemnos.Discovery.Report.{DiscoveryRunReport}
use lemnos.Discovery.Run.{DiscoveryContext, DiscoveryProbe, Host, run_probes}
use lemnos.Runtime.Defs.{Env, Runtime}
use lemnos.Runtime.Diagnostics.{RuntimeError, RuntimeResult}
use lemnos.Runtime.Refresh.{
  PreparedRefreshCommit, RefreshMode, commit_found, finish, finish_refresh, next_inventory,
  prepare_refresh_commit, refresh_run, refresh_with_mode,
}

module _ {C B : Type 0} (env : Env B) where
  -- The operation succeeded, or it left the runtime as it was.
  abbrev pub Kept : {A : Type 0} → Runtime C B → Runtime C B × RuntimeResult A → Type 0
  Kept rt out = (is_ok out.1 ≡ true) ⊎ (out.0 ≡ rt)

  commit_found-Kept :
      (mode : RefreshMode) (run : DiscoveryRunReport) (next : RuntimeResult InventorySnapshot)
      (rt : Runtime C B)
      → Kept rt (commit_found env mode run next rt)
  unfolding commit_found
  commit_found-Kept mode run (err e) rt = inr refl
  commit_found-Kept mode run (ok next) rt = inl refl

  finish-Kept :
      (rt : Runtime C B) (p : Runtime C B × RuntimeResult (PreparedRefreshCommit B))
      → Kept rt p
      → Kept rt (finish env p)
  unfolding finish
  finish-Kept rt (left, err e) (inl h) = absurd (true≢false (sym h))
  finish-Kept rt (left, err e) (inr h) = inr h
  finish-Kept rt (left, ok prepared) h = inl refl

  pub refresh_run-Kept :
      (mode : RefreshMode) (run : DiscoveryResult DiscoveryRunReport) (rt : Runtime C B)
      → Kept rt (refresh_run env mode run rt)
  unfolding refresh_run finish_refresh prepare_refresh_commit
  refresh_run-Kept mode (err e) rt = inr refl
  refresh_run-Kept mode (ok run) rt = finish-Kept rt (prepare_refresh_commit env mode run rt) (
      if-cases (Kept rt) (not rt.running) _ _ (λ _. inr refl)
        (λ _. commit_found-Kept mode run (next_inventory mode run rt) rt))

  refresh_with_mode-Kept :
      (host : Host) (mode : RefreshMode) (context : DiscoveryContext) (probes : List DiscoveryProbe)
      (rt : Runtime C B)
      → Kept rt (refresh_with_mode env host mode context probes rt)
  unfolding refresh_with_mode
  refresh_with_mode-Kept host mode context probes rt =
      if-cases (Kept rt) (not rt.running) _ _ (λ _. inr refl)
        (λ _. refresh_run-Kept mode (run_probes host context probes) rt)

-- A refresh that returns an error leaves the whole runtime as it was: inventory, bindings, states,
-- failure records, retained events and probe index.
pub refresh_with_mode-err :
    {C B : Type 0} (env : Env B) (host : Host) (mode : RefreshMode) (context : DiscoveryContext)
    (probes : List DiscoveryProbe) (rt : Runtime C B) (e : RuntimeError)
    → (refresh_with_mode env host mode context probes rt).1 ≡ err e
    → (refresh_with_mode env host mode context probes rt).0 ≡ rt
refresh_with_mode-err env host mode context probes rt e h =
    elim (refresh_with_mode-Kept env host mode context probes rt) [
      | inl o ↦ absurd (true≢false (sym o ∙ ap is_ok h))
      | inr k ↦ k
    ]
