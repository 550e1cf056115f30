-- ===== src/Store/Tests.antt =====
-- The withdrawal of an agent's listing at a concrete table.
use vtessera.Common.{◌≡◌, ◌↔◌, refl, true, err, [], ◌∷◌}
use vtessera.Money.{no_amount}
use vtessera.Domain.{Trade, TradeState, offchain, active, party, terminal, state_eq}
use vtessera.Store.{Db, agent_has_live_trades}
use vtessera.Store.Query.{exists_by}
use vtessera.Store.Retire.{retire_agent}
use vtessera.Store.Live.{retire_agent-live, blocks}

abbrev resolved_trade : Trade
resolved_trade = record {
  id = "t1";
  offer_id = "offer";
  buyer_agent_id = "buyer";
  seller_agent_id = "seller";
  description = "work";
  amount = no_amount;
  mint = "usdc";
  settlement_mode = offchain;
  state = TradeState.resolved;
  idempotency_key = "";
  created_at = 0;
  updated_at = 0;
  acceptances = [];
}

-- A seller whose one trade an operator has resolved.
abbrev resolved_db : Db
resolved_db = record {
  agents = record { id = "seller"; status = active; updated_at = 0 } ∷ [];
  offers = [];
  trades = resolved_trade ∷ [];
  trade_acceptances = [];
  trade_events = [];
  agent_limits = [];
  settlement_requests = [];
  agent_retirements = [];
}

retire_agent-live_example :
    (retire_agent resolved_db "seller" "closed" "operator" 1 ≡ err agent_has_live_trades)
    ↔ (exists_by (blocks "seller") resolved_db.trades ≡ true)
retire_agent-live_example = retire_agent-live resolved_db "seller" "closed" "operator" 1

-- The resolved trade blocks the withdrawal.
run_retire_agent :
    retire_agent resolved_db "seller" "closed" "operator" 1 ≡ err agent_has_live_trades
unfolding exists_by party terminal state_eq
run_retire_agent = (retire_agent-live resolved_db "seller" "closed" "operator" 1).1 refl
