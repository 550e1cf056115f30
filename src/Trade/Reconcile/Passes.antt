-- ===== src/Trade/Reconcile/Passes.antt =====
-- internal/trade/reconcile.go: the counts that a pass reports.
use vtessera.Common.{
  ℕ, suc, ◌+◌, ◌≤◌, ◌≡◌, refl, subst, List, [], ◌∷◌, take, length, length-take, Result, ok, err,
  arith, inl, inr, Result-cases, Option-cases, Bool-cases,
}
use vtessera.Domain.{Trade, TradeState}
use vtessera.Store.Settlement.{trades_in_state}
use vtessera.Trade.LedgerApi.{LedgerApi}
use vtessera.Trade.Monad.{TradeError, Service, SettlementDeps, World}
use vtessera.Trade.Service.{check_cluster}
use vtessera.Trade.Reconcile.{
  Outcome, ReconcileStats, pending, settled, disputed, expired, expired_cluster_mismatch, counted,
  noted, no_stats, reconcile_trade, reconcile_each, reconcile_pass, reconcile_outstanding,
  batch_size, reconciles,
}

abbrev pub verdicts : ReconcileStats → ℕ
verdicts s = s.settled + s.disputed + s.expired + s.pending

-- No trade is counted under two verdicts, and a withdrawal is counted as an expiry too.
pub record AddsUp (s : ReconcileStats) : Type 0 where
  pub within : verdicts s ≤ s.examined
  pub mismatches : s.expired_cluster_mismatch ≤ s.expired

noted-AddsUp :
    (s : ReconcileStats) (r : Result TradeError Outcome)
    → AddsUp s
    → AddsUp (noted (record s { examined = suc s.examined }) r)
      × ((noted (record s { examined = suc s.examined }) r).examined ≡ suc s.examined)
unfolding counted
noted-AddsUp s (err e) a =
    (record { within = omega (arith, a.within); mismatches = a.mismatches }, refl)
noted-AddsUp s (ok settled) a =
    (record { within = omega (arith, a.within); mismatches = a.mismatches }, refl)
noted-AddsUp s (ok disputed) a =
    (record { within = omega (arith, a.within); mismatches = a.mismatches }, refl)
noted-AddsUp s (ok expired) a =
    (record { within = omega (arith, a.within); mismatches = omega (arith, a.mismatches) }, refl)
noted-AddsUp s (ok expired_cluster_mismatch) a =
    (record { within = omega (arith, a.within); mismatches = omega (arith, a.mismatches) }, refl)
noted-AddsUp s (ok pending) a =
    (record { within = omega (arith, a.within); mismatches = a.mismatches }, refl)

module _ (api : LedgerApi) where
  open api use {State}

  reconcile_each-AddsUp :
      (d : SettlementDeps) (now : ℕ) (trades : List Trade) (s : ReconcileStats) (w : World State)
      → AddsUp s
      → AddsUp (reconcile_each api d now trades s w).0
        × ((reconcile_each api d now trades s w).0.examined ≡ s.examined + length trades)
  unfolding reconcile_each
  reconcile_each-AddsUp d now [] s w h = (h, omega arith)
  reconcile_each-AddsUp d now (tr ∷ trades) s w h =
      let (next, step) = noted-AddsUp s (reconcile_trade api d now tr w).0 h in
      let (rest, total) = reconcile_each-AddsUp d now trades _ _ next in
      (rest, omega (arith, total, step))

  abbrev Bounded : ℕ → World State → ReconcileStats → Type 0
  Bounded batch w s =
      AddsUp s
      × (s.examined ≤ batch_size batch)
      × (s.examined ≤ length (trades_in_state w.db TradeState.settlement_pending))

  no_stats-Bounded : (batch : ℕ) (w : World State) → Bounded batch w no_stats
  no_stats-Bounded batch w =
      (record { within = omega arith; mismatches = omega arith }, omega arith, omega arith)

  reconcile_pass-Bounded :
      (d : SettlementDeps) (now batch : ℕ) (w : World State) (s : ReconcileStats)
      → (reconcile_pass api d now batch w).0 ≡ ok s
      → Bounded batch w s
  unfolding reconcile_pass
  reconcile_pass-Bounded d now batch w s h = elim (Result-cases (check_cluster d)) [
    | inr (x, e) ↦ absurd (ground arith)
    | inl (u, e) ↦
        let due = take (batch_size batch) (trades_in_state w.db TradeState.settlement_pending) in
        let (sums, total) =
          reconcile_each-AddsUp d now due no_stats w
            (record { within = omega arith; mismatches = omega arith }) in
        let same : (reconcile_each api d now due no_stats w).0 ≡ s = ground arith in
        let cut =
          length-take (batch_size batch) (trades_in_state w.db TradeState.settlement_pending) in
        subst (Bounded batch w) same (sums, omega (arith, total, cut), omega (arith, total, cut))
  ]

  -- A pass that reports has examined no more than its batch and than the trades that are pending,
  -- and its verdicts are of trades that it examined.
  pub reconcile_outstanding-bounded :
      (svc : Service) (now batch : ℕ) (w : World State) (s : ReconcileStats)
      → (reconcile_outstanding api svc now batch w).0 ≡ ok s
      → AddsUp s
        × (s.examined ≤ batch_size batch)
        × (s.examined ≤ length (trades_in_state w.db TradeState.settlement_pending))
  unfolding reconcile_outstanding
  reconcile_outstanding-bounded svc now batch w s h = elim (Option-cases svc.settlement) [
    | inl e ↦ subst (Bounded batch w) (ground arith) (no_stats-Bounded batch w)
    | inr (d, e) ↦ elim (Bool-cases (reconciles d)) [
      | inr g ↦ subst (Bounded batch w) (ground arith) (no_stats-Bounded batch w)
      | inl g ↦ reconcile_pass-Bounded d now batch w s (rw g at rw (e, reconcile_outstanding) at h)
    ]
  ]
