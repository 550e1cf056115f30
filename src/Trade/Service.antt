-- ===== src/Trade/Service.antt =====
-- internal/trade/trade.go: what the methods of the service share. A call reads the
-- clock once, as `now`; `id` is the identifier that the uuid package makes. The mutex of `Create`
-- makes its check and its write one step, as they are here. A `nil` detail and the text of an
-- error are left out.
pub mod Rows
pub mod Trail
pub mod Invariant
use vtessera.Common.{
  ℕ, ◌+◌, Bool, true, false, not, ◌&&◌, ◌||◌, Option, none, some, List, [], ◌∷◌, ltb, leb, length,
  if◌then◌else◌, String, str_eq, Result, ok, err, map_err,
}
use vtessera.Money.{Amount, is_zero, cmp}
use vtessera.Limits.{Policy, Limits, effective, check, is_less}
use vtessera.Cluster.{verify_genesis}
use vtessera.Tokens.{enabled, is_key}
use vtessera.Domain.{
  Agent, Offer, Trade, TradeState, TradeEvent, TradeEventType, SettlementMode, Receipt, Resolution,
  AgentLimits, offchain, onchain, other, mode_valid, mode_eq, is_active, is_open, is_bid,
  accepts_mode, party, state_eq, resolution_valid, offer_closed,
}
use vtessera.Store.{
  Db, not_found, get_agent, get_offer, get_trade, get_trade_by_idempotency_key, create_trade,
  add_trade_acceptance, trade_acceptance, set_trade_state, append_trade_event, list_trade_events,
  set_offer_status, has_live_request, set_agent_limits,
}
use vtessera.Trade.Machine.{can_transition}
use vtessera.Trade.LedgerApi.{LedgerApi, LedgerError}
use vtessera.Trade.Monad.{
  TradeError, Service, SettlementDeps, World, M, pure, throw, throw_if, gets, or_throw, lift, write,
  modify, ◌>>=◌, ◌>>◌, ledger, not_party, illegal_state, offer_unavailable, settlement_unconfigured,
  onchain_unavailable, mode_not_accepted, agent_unavailable, no_card_published, mint_ungoverned,
  not_expired_yet, settlement_live, invalid, caps_unconfigured, limits, store,
}
use vtessera.Trade.Spend.{check_spend, policy_at}

-- `SettlementDeps.CheckCluster`
unfoldable pub check_cluster : SettlementDeps → Result TradeError (Unit {0})
check_cluster d = elim d.genesis [
  | none ↦ ok tt
  | some none ↦ err onchain_unavailable
  | some (some hash) ↦ map_err (λ _. onchain_unavailable) (verify_genesis d.cluster hash)
]

-- `requireSettlement`; what it lets through has the dependencies.
unfoldable pub settlement_deps : Service → Result TradeError SettlementDeps
unfolding check_cluster
settlement_deps svc = elim svc.settlement [
  | none ↦ err settlement_unconfigured
  | some d ↦ elim (check_cluster d) [ ok u ↦ ok d | err e ↦ err e ]
]

unfoldable pub require_settlement : Service → Result TradeError (Unit {0})
unfolding settlement_deps
require_settlement svc = elim (settlement_deps svc) [ ok d ↦ ok tt | err e ↦ err e ]

-- `checkSettleable`, for a service whose settlement is enabled; without one there is no registry.
unfoldable pub check_settleable : Service → String → String → String → Result TradeError (Unit {0})
check_settleable svc buyer seller mint = elim svc.settlement [
  | none ↦ err settlement_unconfigured
  | some d ↦ elim (enabled d.registry mint) [
    | err e ↦ err mint_ungoverned
    | ok t ↦
        if is_key d.public_key buyer && is_key d.public_key seller
        then ok tt
        else err mode_not_accepted
  ]
]

-- Without settlement no trade has a transaction in flight.
unfoldable pub live_settlement : Service → Db → ℕ → String → Bool
live_settlement svc db now trade_id = elim svc.settlement [
  | none ↦ false
  | some d ↦ has_live_request db trade_id now
]

module _ {L : Type 0} where
  unfoldable pub read_trade : String → M L Trade
  read_trade trade_id = do
    found ← gets (λ db. get_trade db trade_id)
    or_throw found TradeError.not_found

  -- `partyTrade`
  unfoldable pub party_trade : String → String → M L Trade
  unfolding read_trade
  party_trade actor trade_id = do
    tr ← read_trade trade_id
    throw_if (not (party tr actor)) not_party
    pure tr

  unfoldable pub append_event :
      ℕ → String → String → TradeEventType → Option TradeState → TradeState → M L (Unit {0})
  append_event now trade_id actor kind from to = modify (λ db. (
    tt,
    append_trade_event db (record {
      trade_id = trade_id;
      actor_agent_id = actor;
      event_type = kind;
      from_state = from;
      to_state = to;
      created_at = now;
    }),
  ))

  -- The end of `applyAs`, once the transition is allowed: only a row that is still in the state
  -- that was read moves, and only then is an event written.
  unfoldable pub move : ℕ → Trade → String → TradeState → TradeEventType → M L Trade
  unfolding append_event
  move now tr actor to kind = do
    changed ← modify (λ db. set_trade_state db tr.id tr.state to now)
    if changed then append_event now tr.id actor kind (some tr.state) to else pure tt
    read_trade tr.id

  -- `applyAs`; `event` is `none` for the event that the transition implies.
  unfoldable pub apply_as : ℕ → Trade → String → TradeState → Option TradeEventType → M L Trade
  apply_as now tr actor to event = elim (can_transition tr.state to) [
    | none ↦ throw illegal_state
    | some kind ↦ elim event [ none ↦ move now tr actor to kind | some e ↦ move now tr actor to e ]
  ]

  unfoldable pub apply : ℕ → Trade → String → TradeState → M L Trade
  apply now tr actor to = apply_as now tr actor to none

-- `acceptanceDeadline`; `none` is the zero time.
unfoldable pub acceptance_deadline : Service → Db → Trade → Option ℕ
acceptance_deadline svc db tr =
    if not (ltb 0 svc.accept_ttl) || not (state_eq tr.state TradeState.accepted)
    then none
    else elim (trade_acceptance db tr.id) [ none ↦ none | some at ↦ some (at + svc.accept_ttl) ]

-- `Expired`
unfoldable pub expired : Service → Db → ℕ → Trade → Bool
expired svc db now tr = elim (acceptance_deadline svc db tr) [
  | none ↦ false
  | some deadline ↦ not (ltb now deadline)
]

-- An empty mode is off-chain.
abbrev pub default_mode : SettlementMode → SettlementMode
default_mode (other s) = if str_eq s "" then offchain else other s
default_mode m = m
