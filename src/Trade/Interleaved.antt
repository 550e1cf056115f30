-- ===== src/Trade/Interleaved.antt =====
-- internal/trade/trade.go, `applyAs` (887-901) and `Create`: the row of a trade and its event are written
-- in two transactions of the store, and other calls run between them. The state here is the tables with
-- the events whose row is written and which are not in the log yet, in the order of the rows. A call reads
-- a trade at any time before it writes, so a move starts from any row that was ever read. An event
-- whose transaction fails stays in flight for ever.
pub mod History
pub mod Serial
use vtessera.Common.{
  ℕ, ◌≡◌, Option, none, some, List, [], ◌∷◌, ◌++◌, if◌then◌else◌, String, Result, ok, err,
}
use vtessera.Domain.{Trade, TradeState, TradeEvent, TradeEventType}
use vtessera.Store.{Db, create_trade, append_trade_event, set_trade_state}
use vtessera.Trade.Machine.{can_transition}
use vtessera.Trade.Service.Invariant.{LeadsTo, event_of}

pub record Running : Type 0 where
  pub db : Db
  pub in_flight : List TradeEvent

abbrev pub kind_of : Option TradeEventType → TradeEventType → TradeEventType
kind_of none implied = implied
kind_of (some kind) implied = kind

-- `applyAs` up to its first transaction; `from` is the state of the row that was read.
unfoldable pub begin_move :
    ℕ → String → String → TradeState → TradeState → Option TradeEventType → Running → Running
begin_move now id actor from to event r = elim (can_transition from to) [
  | none ↦ r
  | some implied ↦
      let (changed, moved) = set_trade_state r.db id from to now in
      if changed
      then record {
        db = moved;
        in_flight =
            r.in_flight ++ (event_of now id actor (kind_of event implied) (some from) to ∷ []);
      }
      else record r { db = moved }
]

-- The first transaction of `Create`.
unfoldable pub begin_create : ℕ → String → String → Trade → Running → Running
begin_create now actor key t r = elim (create_trade r.db t key) [
  | err e ↦ r
  | ok db ↦ record {
    db = db;
    in_flight = r.in_flight ++ (event_of now t.id actor TradeEventType.proposed none t.state ∷ []);
  }
]

-- One transaction of a call, or what the rest of the service writes to other tables.
pub data Turn : Running → Running → Type 0 where
  moves :
      (r : Running) (now : ℕ) (id actor : String) (from to : TradeState)
      (event : Option TradeEventType)
      → LeadsTo event to
      → Turn r (begin_move now id actor from to event r)
  opens :
      (r : Running) (now : ℕ) (actor key : String) (t : Trade)
      → t.state ≡ TradeState.proposed
      → Turn r (begin_create now actor key t r)
  logs :
      (r : Running) (before after : List TradeEvent) (e : TradeEvent)
      → r.in_flight ≡ before ++ (e ∷ after)
      → Turn r (record { db = append_trade_event r.db e; in_flight = before ++ after })
  elsewhere :
      (r : Running) (db : Db)
      → db.trades ≡ r.db.trades
      → db.trade_events ≡ r.db.trade_events
      → Turn r (record r { db = db })

-- Any interleaving of the transactions of any calls.
pub data Turns : Running → Running → Type 0 where
  none_yet : {r : Running} → Turns r r
  then_one : {q r s : Running} → Turns q r → Turn r s → Turns q s
