-- ===== src/Trade/Opening.antt =====
-- internal/trade/trade.go: `Create`, which takes up an offer as a trade.
pub mod Caps
use vtessera.Common.{
  ℕ, Bool, true, false, not, ◌&&◌, ◌||◌, Option, none, some, List, [], ◌∷◌, ltb, length,
  if◌then◌else◌, String, str_eq, Result, ok, err, reject_if, ◌and_then◌,
}
use vtessera.Money.{Amount, is_zero, cmp}
use vtessera.Limits.{Policy, Limits, effective, check, is_less}
use vtessera.Domain.{
  Agent, Offer, Trade, TradeState, TradeEvent, TradeEventType, SettlementMode, Receipt, Resolution,
  AgentLimits, OfferDirection, offchain, onchain, mode_valid, mode_eq, is_active, is_open, is_bid,
  accepts_mode, state_eq, resolution_valid, offer_closed,
}
use vtessera.Store.{
  Db, get_agent, get_offer, get_trade_by_idempotency_key, create_trade, add_trade_acceptance,
  list_trade_events, set_offer_status, set_agent_limits,
}
use vtessera.Trade.LedgerApi.{LedgerApi, LedgerError}
use vtessera.Trade.Monad.{
  TradeError, Service, World, M, pure, throw, throw_if, gets, or_throw, lift, write, modify, ◌>>=◌,
  ◌>>◌, ledger, illegal_state, offer_unavailable, mode_not_accepted, agent_unavailable,
  no_card_published, not_expired_yet, settlement_live, invalid, caps_unconfigured, limits,
}
use vtessera.Trade.Spend.{check_spend, policy_at}
use vtessera.Trade.Service.{
  require_settlement, check_settleable, live_settlement, read_trade, party_trade, append_event,
  apply, apply_as, acceptance_deadline, default_mode,
}

-- Buyer and seller of an offer that `actor` takes up: a bid is made by the buyer.
abbrev pub buyer_of : String → Offer → String
buyer_of actor offer = if is_bid offer.direction then offer.agent_id else actor

abbrev pub seller_of : String → Offer → String
seller_of actor offer = if is_bid offer.direction then actor else offer.agent_id

abbrev pub new_trade : ℕ → String → Offer → SettlementMode → String → Trade
new_trade now id offer mode actor = record {
  id = id;
  offer_id = offer.id;
  buyer_agent_id = buyer_of actor offer;
  seller_agent_id = seller_of actor offer;
  description = offer.description;
  amount = offer.price_amount;
  mint = offer.price_mint;
  settlement_mode = mode;
  state = TradeState.proposed;
  idempotency_key = "";
  created_at = now;
  updated_at = now;
  acceptances = [];
}

-- One round of the loop over the parties in `Create`.
unfoldable pub check_agent : Db → String → String → Result TradeError (Unit {0})
check_agent db actor party = elim (get_agent db party) [
  | none ↦ err (if str_eq party actor then no_card_published else TradeError.not_found)
  | some agent ↦ if is_active agent.status then ok tt else err agent_unavailable
]

-- What `Create` asks of an offer that was found, in its order; nothing is written on the way.
unfoldable pub create_guards :
    Service → Db → ℕ → String → Offer → SettlementMode → Result TradeError (Unit {0})
create_guards svc db now actor offer mode =
    reject_if (not (is_open offer.status)) offer_unavailable
    and_then reject_if (not (accepts_mode offer mode)) mode_not_accepted
    and_then reject_if (str_eq offer.agent_id actor) offer_unavailable
    and_then check_agent db actor (buyer_of actor offer)
    and_then check_agent db actor (seller_of actor offer)
    and_then (if mode_eq mode onchain
        then check_settleable svc (buyer_of actor offer) (seller_of actor offer) offer.price_mint
        else ok tt)
    and_then check_spend svc db now (buyer_of actor offer) offer.price_amount offer.price_mint ""

module _ {L : Type 0} where
  -- `Create`, for an offer that was found: the guards, the reservation, its first event.
  unfoldable pub create_from :
      Service → ℕ → String → String → Offer → SettlementMode → String → M L (Trade × Bool)
  create_from svc now id actor offer mode key = do
    checked ← gets (λ db. create_guards svc db now actor offer mode)
    lift checked
    write (λ db. create_trade db (new_trade now id offer mode actor) key)
    append_event now id actor TradeEventType.proposed none TradeState.proposed
    pure (new_trade now id offer mode actor, true)

  abbrev pub existing_for : String → M L (Option Trade)
  existing_for key =
      gets (λ db. if str_eq key "" then none else get_trade_by_idempotency_key db key)

  -- `Create` once the key was looked up: the trade that has it, or a new one.
  unfoldable pub create_unless :
      Service
      → ℕ
      → String
      → String
      → String
      → SettlementMode
      → String
      → Option Trade
      → M L (Trade × Bool)
  create_unless svc now id actor offer_id mode key (some t) = pure (t, false)
  create_unless svc now id actor offer_id mode key none = do
    found ← gets (λ db. get_offer db offer_id)
    offer ← or_throw found TradeError.not_found
    create_from svc now id actor offer mode key

  -- `Create`: the trade, and whether it is new.
  unfoldable pub create :
      Service → ℕ → String → String → String → SettlementMode → String → M L (Trade × Bool)
  create svc now id actor offer_id requested key = do
    let mode = default_mode requested
    throw_if (not (mode_valid mode)) mode_not_accepted
    lift (if mode_eq mode onchain then require_settlement svc else ok tt)
    existing ← existing_for key
    create_unless svc now id actor offer_id mode key existing
