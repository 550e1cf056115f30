-- ===== src/Store/Retire.antt =====
-- internal/store/agents.go: withdrawing an agent's listing.
use vtessera.Common.{
  ℕ, Bool, true, false, not, ◌&&◌, ◌||◌, none, List, is_empty, ltb, String, str_eq, Result, ok,
  ◌>>◌, reject_if, insert,
}
use vtessera.Domain.{Agent, Offer, Trade, TradeState, AgentStatus, retired, offer_closed, is_open}
use vtessera.Store.{Db, StoreError, not_found, agent_has_live_trades}
use vtessera.Store.Query.{filter_by, exists_by, update_by, order_by, collect}

-- `state NOT IN (…)` of `liveTradeIDs`.
abbrev pub counts_as_ended : TradeState → Bool
counts_as_ended TradeState.recorded = true
counts_as_ended TradeState.settled = true
counts_as_ended TradeState.disputed = true
counts_as_ended TradeState.cancelled = true
counts_as_ended _ = false

abbrev pub is_live_trade_of : String → Trade → Bool
is_live_trade_of agent_id t =
    (str_eq t.buyer_agent_id agent_id || str_eq t.seller_agent_id agent_id)
    && not (counts_as_ended t.state)

unfoldable pub live_trade_ids : Db → String → List String
live_trade_ids db agent_id =
    collect (λ t. t.id)
      (order_by (λ t u. ltb t.created_at u.created_at)
        (filter_by (is_live_trade_of agent_id) db.trades))

abbrev set_agent_status : String → AgentStatus → ℕ → List Agent → List Agent
set_agent_status id status at =
    update_by (λ a. str_eq a.id id) (λ a. record a { status = status; updated_at = at })

unfoldable pub retire_agent : Db → String → String → String → ℕ → Result StoreError Db
unfolding live_trade_ids
retire_agent db id reason actor at = do
  reject_if (not (is_empty (live_trade_ids db id))) agent_has_live_trades
  reject_if (not (exists_by (λ (a : Agent). str_eq a.id id) db.agents)) not_found
  ok (record db {
    agents = set_agent_status id retired at db.agents;
    offers =
        update_by (λ (o : Offer). str_eq o.agent_id id && is_open o.status)
          (λ o. record o { status = offer_closed; updated_at = at }) db.offers;
    agent_retirements =
        insert id
          (record {
            reason = reason;
            actor = actor;
            retired_at = at;
            restored_at = none;
            restored_by = none;
          })
          db.agent_retirements;
  })
