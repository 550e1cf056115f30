-- ===== src/Trade/Tests/Interleaving.antt =====
-- The theorem on interleaved calls of internal/trade, at a cancellation that runs while a
-- negotiation begins.
use vtessera.Common.{◌≡◌, refl, none, some, List, [], ◌∷◌, ◌++◌}
use mathlib.Core.List.{Perm}
use vtessera.Domain.{TradeState, TradeEvent, TradeEventType}
use vtessera.Store.{append_trade_event, create_trade, set_trade_state}
use vtessera.Trade.Service.Trail.{IsAudited, fresh, broken, trail, follow}
use vtessera.Trade.Service.Rows.{state_of}
use vtessera.Trade.Service.Invariant.{event_of}
use vtessera.Trade.Interleaved.{Running, Turn, Turns, begin_move, begin_create}
use vtessera.Trade.Interleaved.Serial.{idle}
use vtessera.Trade.Interleaved.History.{Turns-Accounts, with_log}
use vtessera.Trade.Tests.{market}
use vtessera.Trade.Tests.Runs.{trade_in, market-IsAudited}

abbrev proposal : TradeEvent
proposal = event_of 20 "t1" "buyer" TradeEventType.proposed none TradeState.proposed

abbrev negotiation : TradeEvent
negotiation =
    event_of 30 "t1" "seller" TradeEventType.negotiating (some TradeState.proposed)
      TradeState.negotiating

abbrev cancellation : TradeEvent
cancellation =
    event_of 31 "t1" "buyer" TradeEventType.cancelled (some TradeState.negotiating)
      TradeState.cancelled

abbrev opened : Running
opened = begin_create 20 "buyer" "" (trade_in TradeState.proposed) (idle market.db)

abbrev proposed_trade : Running
proposed_trade = idle (append_trade_event opened.db proposal)

-- The negotiation has moved the row, and then a cancellation runs, before the first event is written.
abbrev negotiating_trade : Running
negotiating_trade =
    begin_move 30 "t1" "seller" TradeState.proposed TradeState.negotiating none proposed_trade

abbrev cancelled_trade : Running
cancelled_trade =
    begin_move 31 "t1" "buyer" TradeState.negotiating TradeState.cancelled none negotiating_trade

abbrev overtaken : Running
overtaken = record {
  db = append_trade_event cancelled_trade.db cancellation;
  in_flight = negotiation ∷ [];
}

abbrev finished : Running
finished = record { db = append_trade_event overtaken.db negotiation; in_flight = [] }

overtaking : Turns (idle market.db) finished
unfolding begin_move begin_create create_trade vtessera.Store.Query.exists_by
    vtessera.Store.get_offer vtessera.Store.Query.find_by vtessera.Store.get_agent
    vtessera.Trade.Machine.can_transition set_trade_state append_trade_event
    vtessera.Domain.state_eq vtessera.Store.Query.update_by
overtaking =
    Turns.then_one
      (Turns.then_one
        (Turns.then_one
          (Turns.then_one
            (Turns.then_one
              (Turns.then_one Turns.none_yet
                (Turn.opens (idle market.db) 20 "buyer" "" (trade_in TradeState.proposed) refl))
              (Turn.logs opened [] [] proposal refl))
            (Turn.moves proposed_trade 30 "t1" "seller" TradeState.proposed TradeState.negotiating
              none tt))
          (Turn.moves negotiating_trade 31 "t1" "buyer" TradeState.negotiating TradeState.cancelled
            none tt))
        (Turn.logs cancelled_trade (negotiation ∷ []) [] cancellation refl))
      (Turn.logs overtaken [] [] negotiation refl)

-- The log of the overtaken trade, in its own order, does not add up.
overtaken_log : trail "t1" fresh finished.db.trade_events ≡ broken
unfolding trail append_trade_event begin_move vtessera.Trade.Machine.can_transition set_trade_state
    vtessera.Store.Query.exists_by begin_create create_trade vtessera.Store.get_offer
    vtessera.Store.Query.find_by vtessera.Store.get_agent vtessera.Domain.state_eq
    vtessera.Store.Query.update_by follow
overtaken_log = refl

overtaken_row : state_of "t1" finished.db.trades ≡ some TradeState.cancelled
unfolding state_of append_trade_event begin_move vtessera.Trade.Machine.can_transition
    set_trade_state vtessera.Store.Query.exists_by begin_create create_trade
    vtessera.Store.get_offer vtessera.Store.Query.find_by vtessera.Store.get_agent
    vtessera.Domain.state_eq vtessera.Store.Query.update_by
overtaken_row = refl

Turns-Accounts_example :
    (history : List TradeEvent) × IsAudited (with_log finished.db history)
    × Perm history (finished.db.trade_events ++ finished.in_flight)
Turns-Accounts_example = Turns-Accounts (idle market.db) finished overtaking market-IsAudited refl
