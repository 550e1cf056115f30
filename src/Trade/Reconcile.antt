-- ===== src/Trade/Reconcile.antt =====
-- internal/trade/reconcile.go: the worker that brings a settlement to its verdict when its buyer does
-- not. `settleFetched` is in Trade/Settle.antt. The ticker of `RunReconciler` is left out: a pass is
-- a step of the service.
pub mod Writes
pub mod Passes
pub mod Payments
pub mod Lapses
pub mod Conclusions
use vtessera.Common.{
  ℕ, suc, ◌+◌, Bool, true, false, not, ◌&&◌, Option, none, some, List, [], ◌∷◌, ltb, ◌==◌, take,
  if◌then◌else◌, String, str_eq, Result, ok, err,
}
use vtessera.Domain.{
  Trade, TradeState, TradeEventType, Receipt, SettlementRequest, onchain, mode_eq, is_issued,
}
use vtessera.Store.Settlement.{
  list_settlement_requests, expire_settlement_requests, trades_in_state,
}
use vtessera.Settlement.{Transaction, mismatch}
use vtessera.Trade.LedgerApi.{LedgerApi}
use vtessera.Trade.Monad.{
  TradeError, Service, SettlementDeps, Fetched, World, M, pure, throw, throw_if, gets, or_throw,
  lift, modify, ◌>>=◌, ◌>>◌, landed, absent, unreachable, illegal_state, settlement_failed, verdict,
  cluster_mismatch, chain_failed, invalid_signature,
}
use vtessera.Trade.Service.{check_cluster, apply_as}
use vtessera.Trade.Sweep.{is_illegal_state}
use vtessera.Trade.Settle.{check_request_cluster, settle_fetched}

pub data Outcome : Type 0 where
  pending settled disputed expired expired_cluster_mismatch : Outcome

pub record ReconcileStats : Type 0 where
  pub examined : ℕ
  pub settled : ℕ
  pub disputed : ℕ
  pub expired : ℕ
  pub pending : ℕ
  pub expired_cluster_mismatch : ℕ

abbrev pub no_stats : ReconcileStats
no_stats = record {
  examined = 0;
  settled = 0;
  disputed = 0;
  expired = 0;
  pending = 0;
  expired_cluster_mismatch = 0;
}

-- `SettlementDeps.Reconciles`, of dependencies that are enabled.
abbrev pub reconciles : SettlementDeps → Bool
reconciles d = d.has_trade_list && elim d.genesis [ none ↦ false | some g ↦ true ]

-- `ReconcilePolicy.batch`; a batch that is not positive is 0.
unfoldable pub batch_size : ℕ → ℕ
batch_size batch = if batch == 0 then 1 else batch

-- `latestSignedRequest`, by the last row that has a signature.
unfoldable pub latest_signed : List SettlementRequest → Option SettlementRequest
latest_signed [] = none
latest_signed (r ∷ rs) = elim (latest_signed rs) [
  | some later ↦ some later
  | none ↦ if str_eq r.signature "" then none else some r
]

unfoldable pub latest_request : List SettlementRequest → Option SettlementRequest
latest_request [] = none
latest_request (r ∷ rs) = elim (latest_request rs) [ some later ↦ some later | none ↦ some r ]

abbrev pub is_cluster_mismatch : TradeError → Bool
is_cluster_mismatch cluster_mismatch = true
is_cluster_mismatch _ = false

abbrev pub has_lapsed : ℕ → SettlementRequest → Bool
has_lapsed now r = is_issued r.status && not (ltb now r.expires_at)

-- What a pass reports for an error of `settleFetched`.
unfoldable pub outcome_of : TradeError → Result TradeError Outcome
outcome_of (verdict mismatch) = ok disputed
outcome_of settlement_failed = ok expired
outcome_of illegal_state = ok pending
outcome_of e = err e

unfoldable pub counted : ReconcileStats → Outcome → ReconcileStats
counted s settled = record s { settled = suc s.settled }
counted s disputed = record s { disputed = suc s.disputed }
counted s expired = record s { expired = suc s.expired }
counted s expired_cluster_mismatch = record s {
  expired = suc s.expired;
  expired_cluster_mismatch = suc s.expired_cluster_mismatch;
}
counted s pending = record s { pending = suc s.pending }

abbrev pub noted : ReconcileStats → Result TradeError Outcome → ReconcileStats
noted s (err e) = s
noted s (ok o) = counted s o

-- The error of a method as a value; its writes stay.
unfoldable pub caught : {L A : Type 0} → M L A → M L (Result TradeError A)
caught m w = let (r, w') = m w in (ok r, w')

module _ {L : Type 0} where
  abbrev pub after_lapse : Result TradeError Trade → M L Outcome
  after_lapse (ok t) = pure expired
  after_lapse (err e) = if is_illegal_state e then pure pending else throw e

  -- `reconcileLapsed`
  unfoldable pub reconcile_lapsed : ℕ → Trade → M L Outcome
  unfolding caught
  reconcile_lapsed now tr = do
    modify (λ db. (tt, expire_settlement_requests db tr.id now))
    r ← caught (apply_as now tr "" TradeState.cancelled (some TradeEventType.expired))
    after_lapse r

  -- A trade whose requests carry no signature.
  unfoldable pub reconcile_unsigned : ℕ → Trade → Option SettlementRequest → M L Outcome
  unfolding reconcile_lapsed
  reconcile_unsigned now tr none = pure pending
  reconcile_unsigned now tr (some last) =
      if has_lapsed now last then reconcile_lapsed now tr else pure pending

  -- A request of another cluster is withdrawn.
  unfoldable pub withdraw : ℕ → Trade → TradeError → M L Outcome
  withdraw now tr e = if not (is_cluster_mismatch e) then throw e else do
    modify (λ db. (tt, expire_settlement_requests db tr.id now))
    pure expired_cluster_mismatch

module _ (api : LedgerApi) where
  open api use {State}

  abbrev pub after_verdict : Result TradeError (Trade × Receipt) → M State Outcome
  after_verdict (ok p) = pure settled
  after_verdict (err e) = lift (outcome_of e)

  unfoldable pub reconcile_fetched :
      SettlementDeps
      → ℕ
      → Trade
      → List SettlementRequest
      → SettlementRequest
      → String
      → Fetched
      → M State Outcome
  unfolding settle_fetched caught outcome_of reconcile_lapsed
  reconcile_fetched d now tr requests signed sig absent =
      if has_lapsed now signed then reconcile_lapsed now tr else pure pending
  reconcile_fetched d now tr requests signed sig unreachable = throw chain_failed
  reconcile_fetched d now tr requests signed sig (landed tx failed) = do
    r ← caught (settle_fetched api d now tr requests signed.id sig (tx, failed))
    after_verdict r

  unfoldable pub reconcile_signed :
      SettlementDeps → ℕ → Trade → List SettlementRequest → SettlementRequest → M State Outcome
  unfolding reconcile_fetched check_request_cluster withdraw
  reconcile_signed d now tr requests signed =
      elim (check_request_cluster d.cluster requests signed.id) [
        | err e ↦ withdraw now tr e
        | ok u ↦ or_throw (d.signature signed.signature) invalid_signature >>= λ sig.
            reconcile_fetched d now tr requests signed sig (d.transaction now 1 sig)
      ]

  abbrev pub reconcile_listed :
      SettlementDeps
      → ℕ
      → Trade
      → List SettlementRequest
      → Option SettlementRequest
      → M State Outcome
  reconcile_listed d now tr requests none = reconcile_unsigned now tr (latest_request requests)
  reconcile_listed d now tr requests (some signed) = reconcile_signed d now tr requests signed

  -- `reconcileTrade`
  unfoldable pub reconcile_trade : SettlementDeps → ℕ → Trade → M State Outcome
  unfolding reconcile_signed reconcile_unsigned
  reconcile_trade d now tr = if not (mode_eq tr.settlement_mode onchain) then pure pending else do
    requests ← gets (λ db. list_settlement_requests db tr.id)
    reconcile_listed d now tr requests (latest_signed requests)

  -- The loop of a pass: a trade that fails is left for the next one.
  unfoldable pub reconcile_each :
      SettlementDeps → ℕ → List Trade → ReconcileStats → World State → ReconcileStats × World State
  unfolding reconcile_trade counted
  reconcile_each d now [] stats w = (stats, w)
  reconcile_each d now (tr ∷ trades) stats w =
      let (r, w') = reconcile_trade d now tr w in
      reconcile_each d now trades (noted (record stats { examined = suc stats.examined }) r) w'

  unfoldable pub reconcile_pass :
      SettlementDeps → ℕ → ℕ → World State → Result TradeError ReconcileStats × World State
  unfolding reconcile_each check_cluster trades_in_state batch_size
  reconcile_pass d now batch w = elim (check_cluster d) [
    | err e ↦ (err e, w)
    | ok u ↦
        let due = take (batch_size batch) (trades_in_state w.db TradeState.settlement_pending) in
        let (stats, w') = reconcile_each d now due no_stats w in (ok stats, w')
  ]

  -- `ReconcileOutstanding`
  unfoldable pub reconcile_outstanding :
      Service → ℕ → ℕ → World State → Result TradeError ReconcileStats × World State
  unfolding reconcile_pass
  reconcile_outstanding svc now batch w = elim svc.settlement [
    | none ↦ (ok no_stats, w)
    | some d ↦ if reconciles d then reconcile_pass d now batch w else (ok no_stats, w)
  ]
