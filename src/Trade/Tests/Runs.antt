-- ===== src/Trade/Tests/Runs.antt =====
-- The theorems of internal/trade at a small market.
use vtessera.Common.{◌≡◌, refl, some, [], ◌∷◌, Dict, arith, inr}
use vtessera.Domain.{Trade, TradeState, Receipt, offchain, terminal}
use vtessera.Store.{trade_acceptance, acceptances_of}
use vtessera.Store.Query.{filter_by, min_by}
use vtessera.Trade.Machine.Lifecycle.{Reaches}
use vtessera.Trade.Monad.{World}
use vtessera.Trade.Service.Rows.{state_of, distinct_ids}
use vtessera.Trade.Service.Trail.{IsAudited, trail}
use vtessera.Trade.Methods.{cancel, dispute}
use vtessera.Trade.Sweep.{expire_accepted}
use vtessera.Trade.Sweep.Due.{expire_accepted-spares}
use vtessera.Trade.Steps.{Step, Steps}
use vtessera.Trade.Finality.{Steps-Reaches, Steps-final}
use vtessera.Trade.Tests.{memory_ledger, service, market, one_dollar}

abbrev pub trade_in : TradeState → Trade
trade_in s = record {
  id = "t1";
  offer_id = "offer";
  buyer_agent_id = "buyer";
  seller_agent_id = "seller";
  description = "work";
  amount = one_dollar;
  mint = "usdc";
  settlement_mode = offchain;
  state = s;
  idempotency_key = "";
  created_at = 0;
  updated_at = 0;
  acceptances = [];
}

-- The market with one trade, accepted by both at 10.
abbrev market_in : TradeState → World (Dict Receipt)
market_in s = record market {
  db = record market.db {
    trades = trade_in s ∷ [];
    trade_acceptances =
        record { trade_id = "t1"; agent_id = "buyer"; created_at = 10 }
        ∷ record { trade_id = "t1"; agent_id = "seller"; created_at = 12 }
        ∷ [];
  };
}

pub market-IsAudited : IsAudited market.db
unfolding distinct_ids trail state_of
market-IsAudited = record { distinct = refl; logged = λ id. refl }

Steps-Reaches_example :
    (t : TradeState) × (state_of "t1"
        (cancel service 70 "buyer" "t1" (market_in TradeState.accepted)).1.db.trades
      ≡ some t)
    × Reaches TradeState.accepted t
unfolding state_of
Steps-Reaches_example =
    Steps-Reaches memory_ledger service (market_in TradeState.accepted)
      (cancel service 70 "buyer" "t1" (market_in TradeState.accepted)).1 "t1" TradeState.accepted
      (Steps.then_one Steps.none_yet (Step.cancels (market_in TradeState.accepted) 70 "buyer" "t1"))
      refl

Steps-final_example :
    state_of "t1" (dispute 70 "buyer" "t1" (market_in TradeState.cancelled)).1.db.trades
    ≡ some TradeState.cancelled
unfolding state_of terminal
Steps-final_example =
    Steps-final memory_ledger service (market_in TradeState.cancelled)
      (dispute 70 "buyer" "t1" (market_in TradeState.cancelled)).1 "t1" TradeState.cancelled
      (Steps.then_one Steps.none_yet
        (Step.disputes (market_in TradeState.cancelled) 70 "buyer" "t1"))
      refl refl (λ e. cc)

expire_accepted-spares_example :
    state_of "t1" (expire_accepted service 30 0 (market_in TradeState.accepted)).1.db.trades
    ≡ some TradeState.accepted
unfolding state_of trade_acceptance acceptances_of filter_by min_by
expire_accepted-spares_example =
    expire_accepted-spares service 30 0 (market_in TradeState.accepted) "t1" TradeState.accepted
      refl (inr (10, refl, omega arith))
