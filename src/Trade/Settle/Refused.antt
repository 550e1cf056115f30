-- ===== src/Trade/Settle/Refused.antt =====
-- internal/trade/settlement.go: the transactions and the requests that are refused.
use vtessera.Common.{
  ℕ, ◌≡◌, refl, ap, true, false, Option, some, List, [], ◌∷◌, String, str_eq, ok, err, arith,
}
use vtessera.Cluster.{Cluster}
use vtessera.Domain.{Trade, TradeState, TradeEventType, SettlementRequest}
use vtessera.Settlement.{Transaction, Terms, mismatch}
use vtessera.Store.{set_trade_state}
use vtessera.Store.Query.{find_by}
use vtessera.Store.Settlement.{list_settlement_requests, get_settlement_request, is_foreign}
use vtessera.Trade.Machine.{can_transition}
use vtessera.Trade.LedgerApi.{LedgerApi}
use vtessera.Trade.Monad.{SettlementDeps, World, ◌>>=◌, cluster_mismatch}
use vtessera.Trade.Service.{apply}
use vtessera.Trade.Service.Rows.{state_of, state_of-moved}
use vtessera.Trade.Service.Invariant.{apply-moves}
use vtessera.Trade.Sweep.Due.{moved_db-rows}
use vtessera.Trade.Settle.{
  terms_of, check_request_cluster, refuse, note_signature, settle_landed, settle_fetched,
  confirm_against, confirm_pending,
}

pending-disputed :
    (s : TradeState)
    → s ≡ TradeState.settlement_pending
    → can_transition s TradeState.disputed ≡ some TradeEventType.disputed
unfolding can_transition
pending-disputed s h = ap (λ x. can_transition x TradeState.disputed) h

module _ {L : Type 0} where
  refuse-world :
      (now : ℕ) (tr : Trade) (w : World L)
      → (refuse now tr mismatch w).1 ≡ (apply now tr tr.buyer_agent_id TradeState.disputed w).1
  unfolding refuse ◌>>=◌
  refuse-world now tr w = ground arith

  refuse-disputes :
      (now : ℕ) (tr : Trade) (w : World L)
      → tr.state ≡ TradeState.settlement_pending
      → state_of tr.id w.db.trades ≡ some tr.state
      → (state_of tr.id (refuse now tr mismatch w).1.db.trades ≡ some TradeState.disputed)
        × ((refuse now tr mismatch w).1.ledger ≡ w.ledger)
  unfolding set_trade_state
  refuse-disputes now tr w pending found =
      let (rows, kept) =
        apply-moves now tr tr.buyer_agent_id TradeState.disputed TradeEventType.disputed w
          (pending-disputed tr.state pending) in
      rw (refuse-world now tr w, rows, kept)
        (
          rw
              (moved_db-rows now tr.id tr.buyer_agent_id tr.state TradeState.disputed
                TradeEventType.disputed w.db).0
              (state_of-moved tr.id tr.state TradeState.disputed now w.db.trades found),
          refl,
        )

module _ (api : LedgerApi) where
  open api use {State}

  -- A transaction that the chain executed without failure but that does not settle the agreed terms
  -- makes the pending trade a disputed one, where the request that it came with is not of another
  -- cluster, and the ledger is not written.
  pub settle_fetched-mismatch :
      (d : SettlementDeps) (now : ℕ) (tr : Trade) (rs : List SettlementRequest)
      (current sig : String) (tx : Option Transaction) (agreed : Terms) (w : World State)
      → tr.state ≡ TradeState.settlement_pending
      → state_of tr.id w.db.trades ≡ some tr.state
      → check_request_cluster d.cluster rs current ≡ ok tt
      → terms_of d tr ≡ ok agreed
      → d.verify agreed tx ≡ err mismatch
      → (state_of tr.id (settle_fetched api d now tr rs current sig (tx, false) w).1.db.trades
          ≡ some TradeState.disputed)
        × ((settle_fetched api d now tr rs current sig (tx, false) w).1.ledger ≡ w.ledger)
  unfolding settle_fetched settle_landed ◌>>=◌
  settle_fetched-mismatch d now tr rs current sig tx agreed w pending found same_cluster derived
        refused =
      rw (same_cluster, derived, refused) (refuse-disputes now tr w pending found)

check_request_cluster-foreign :
    (want : Cluster) (rs : List SettlementRequest) (id : String) (r : SettlementRequest)
    → str_eq id "" ≡ false
    → find_by (λ (q : SettlementRequest). str_eq q.id id) rs ≡ some r
    → is_foreign want r ≡ true
    → check_request_cluster want rs id ≡ err cluster_mismatch
unfolding check_request_cluster find_by
check_request_cluster-foreign want [] id r named found foreign = absurd (cc)
check_request_cluster-foreign want (q ∷ rs) id r named found foreign =
    ground (arith, check_request_cluster-foreign want rs id r named)

module _ (api : LedgerApi) where
  open api use {State}

  -- A request that was issued for another cluster, or for none, is refused before a signature is
  -- recorded or the chain is asked.
  pub confirm_pending-foreign :
      (d : SettlementDeps) (now : ℕ) (tr : Trade) (sig : String) (q r : SettlementRequest)
      (w : World State)
      → get_settlement_request w.db tr.id ≡ some q
      → str_eq q.id "" ≡ false
      → find_by (λ (p : SettlementRequest). str_eq p.id q.id) (list_settlement_requests w.db tr.id)
        ≡ some r
      → is_foreign d.cluster r ≡ true
      → confirm_pending api d now tr sig w ≡ (err cluster_mismatch, w)
  unfolding confirm_pending confirm_against note_signature ◌>>=◌
  confirm_pending-foreign d now tr sig q r w current named found foreign =
      rw
        (
          current,
          check_request_cluster-foreign d.cluster (list_settlement_requests w.db tr.id) q.id r named
              found foreign,
        )
        refl
