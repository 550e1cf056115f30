-- ===== src/Trade/Reconcile/Writes.antt =====
-- A pass of internal/trade/reconcile.go by the writes that it makes.
use vtessera.Common.{
  ℕ, refl, Option, none, some, List, [], ◌∷◌, take, String, Result, ok, err, inl, inr, Result-cases,
  Option-cases, Bool-cases,
}
use vtessera.Domain.{Trade, TradeState, TradeEventType, SettlementRequest}
use vtessera.Store.{Db}
use vtessera.Store.Settlement.{trades_in_state}
use vtessera.Trade.LedgerApi.{LedgerApi}
use vtessera.Trade.Monad.{
  TradeError, Service, SettlementDeps, Fetched, World, M, landed, absent, unreachable, chain_failed,
  invalid_signature,
}
use vtessera.Trade.Service.{check_cluster}
use vtessera.Trade.Service.Invariant.{
  IsKept, Maintains, keeping, apply_as-Maintains, pure-Maintains, throw-Maintains, lift-Maintains,
  bind-Maintains, or_throw-Maintains,
}
use vtessera.Trade.Settle.{check_request_cluster}
use vtessera.Trade.Settle.Writes.{expire-Maintains, settle_fetched-Maintains}
use vtessera.Trade.Reconcile.{
  ReconcileStats, pending, expired, settled, caught, after_lapse, reconcile_lapsed,
  reconcile_unsigned, withdraw, after_verdict, reconcile_fetched, reconcile_signed,
  reconcile_listed, reconcile_trade, reconcile_each, reconcile_pass, reconcile_outstanding,
  outcome_of, latest_request, batch_size, reconciles, no_stats,
}

module _ {L A : Type 0} {P : Db → Type 0} where
  caught-Maintains : (m : M L A) → Maintains P m → Maintains P (caught m)
  unfolding caught
  caught-Maintains m h = record { at = λ w p. h.at w p }

module _ {L : Type 0} {P : Db → Type 0} (kept : IsKept P) where
  after_lapse-Maintains : (r : Result TradeError Trade) → Maintains {L = L} P (after_lapse r)
  after_lapse-Maintains (ok t) = pure-Maintains expired
  after_lapse-Maintains (err e) = search keeping

  reconcile_lapsed-Maintains :
      (now : ℕ) (tr : Trade) → Maintains {L = L} P (reconcile_lapsed now tr)
  unfolding reconcile_lapsed
  reconcile_lapsed-Maintains now tr = bind-Maintains _ _ (expire-Maintains kept tr.id now) (λ _.
      bind-Maintains _ _
        (caught-Maintains _ (
          apply_as-Maintains kept now tr "" TradeState.cancelled (some TradeEventType.expired)
            refl))
        after_lapse-Maintains)

  reconcile_unsigned-Maintains :
      (now : ℕ) (tr : Trade) (last : Option SettlementRequest)
      → Maintains {L = L} P (reconcile_unsigned now tr last)
  unfolding reconcile_unsigned
  reconcile_unsigned-Maintains now tr none = pure-Maintains pending
  reconcile_unsigned-Maintains now tr (some last) = search (keeping, reconcile_lapsed-Maintains)

  withdraw-Maintains :
      (now : ℕ) (tr : Trade) (e : TradeError) → Maintains {L = L} P (withdraw now tr e)
  unfolding withdraw
  withdraw-Maintains now tr e = search (keeping, kept, expire-Maintains)

module _ (api : LedgerApi) {P : Db → Type 0} (kept : IsKept P) where
  open api use {State}

  after_verdict-Maintains : (r : Result TradeError (Trade × _)) → Maintains P (after_verdict api r)
  after_verdict-Maintains (ok p) = pure-Maintains settled
  after_verdict-Maintains (err e) = lift-Maintains (outcome_of e)

  reconcile_fetched-Maintains :
      (d : SettlementDeps) (now : ℕ) (tr : Trade) (rs : List SettlementRequest)
      (signed : SettlementRequest) (sig : String) (f : Fetched)
      → Maintains P (reconcile_fetched api d now tr rs signed sig f)
  unfolding reconcile_fetched
  reconcile_fetched-Maintains d now tr rs signed sig absent =
      search (keeping, kept, reconcile_lapsed-Maintains)
  reconcile_fetched-Maintains d now tr rs signed sig unreachable = throw-Maintains chain_failed
  reconcile_fetched-Maintains d now tr rs signed sig (landed tx failed) =
      bind-Maintains _ _
        (caught-Maintains _
          (settle_fetched-Maintains api kept d now tr rs signed.id sig (tx, failed)))
        after_verdict-Maintains

  reconcile_signed-Maintains :
      (d : SettlementDeps) (now : ℕ) (tr : Trade) (rs : List SettlementRequest)
      (signed : SettlementRequest)
      → Maintains P (reconcile_signed api d now tr rs signed)
  unfolding reconcile_signed
  reconcile_signed-Maintains d now tr rs signed =
      elim (Result-cases (check_request_cluster d.cluster rs signed.id)) [
        | inr (x, e) ↦ rw (e, reconcile_signed) (withdraw-Maintains kept now tr x)
        | inl (u, e) ↦
            rw (e, reconcile_signed)
              (bind-Maintains _ _
                (or_throw-Maintains (d.signature signed.signature) invalid_signature)
                (λ sig.
                  reconcile_fetched-Maintains d now tr rs signed sig (d.transaction now 1 sig)))
      ]

  reconcile_listed-Maintains :
      (d : SettlementDeps) (now : ℕ) (tr : Trade) (rs : List SettlementRequest)
      (signed : Option SettlementRequest)
      → Maintains P (reconcile_listed api d now tr rs signed)
  reconcile_listed-Maintains d now tr rs none =
      reconcile_unsigned-Maintains kept now tr (latest_request rs)
  reconcile_listed-Maintains d now tr rs (some r) = reconcile_signed-Maintains d now tr rs r

  reconcile_trade-Maintains :
      (d : SettlementDeps) (now : ℕ) (tr : Trade) → Maintains P (reconcile_trade api d now tr)
  unfolding reconcile_trade
  reconcile_trade-Maintains d now tr = search (keeping, reconcile_listed-Maintains)

  reconcile_each-kept :
      (d : SettlementDeps) (now : ℕ) (trades : List Trade) (stats : ReconcileStats)
      (w : World State)
      → P w.db
      → P (reconcile_each api d now trades stats w).1.db
  unfolding reconcile_each
  reconcile_each-kept d now [] stats w p = p
  reconcile_each-kept d now (tr ∷ trades) stats w p =
      reconcile_each-kept d now trades _ _ ((reconcile_trade-Maintains d now tr).at w p)

  reconcile_pass-kept :
      (d : SettlementDeps) (now batch : ℕ) (w : World State)
      → P w.db
      → P (reconcile_pass api d now batch w).1.db
  unfolding reconcile_pass
  reconcile_pass-kept d now batch w p = elim (Result-cases (check_cluster d)) [
    | inr (x, e) ↦ rw (e, reconcile_pass) p
    | inl (u, e) ↦
        rw (e, reconcile_pass)
          (reconcile_each-kept d now
            (take (batch_size batch) (trades_in_state w.db TradeState.settlement_pending)) no_stats
            w p)
  ]

  pub reconcile_outstanding-kept :
      (svc : Service) (now batch : ℕ) (w : World State)
      → P w.db
      → P (reconcile_outstanding api svc now batch w).1.db
  unfolding reconcile_outstanding
  reconcile_outstanding-kept svc now batch w p = elim (Option-cases svc.settlement) [
    | inl e ↦ rw (e, reconcile_outstanding) p
    | inr (d, e) ↦ elim (Bool-cases (reconciles d)) [
      | inr g ↦ rw (e, reconcile_outstanding) (rw g p)
      | inl g ↦ rw (e, reconcile_outstanding) (rw g (reconcile_pass-kept d now batch w p))
    ]
  ]
