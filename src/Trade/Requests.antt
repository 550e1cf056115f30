-- ===== src/Trade/Requests.antt =====
-- The settlement requests under the calls of internal/trade.
use vtessera.Common.{ℕ, ◌≡◌, none, String, ok, arith}
use vtessera.Domain.{Trade, TradeState, TradeEventType}
use vtessera.Store.{Db, create_trade, set_trade_state, append_trade_event}
use vtessera.Store.Settlement.Open.{OneOpen, RequestWrite-OneOpen}
use vtessera.Trade.LedgerApi.{LedgerApi}
use vtessera.Trade.Monad.{Service, World}
use vtessera.Trade.Service.Invariant.{IsKept, moved_db, event_of}
use vtessera.Trade.Steps.{Steps, Steps-kept}

moved_db-requests :
    (now : ℕ) (id actor : String) (from to : TradeState) (kind : TradeEventType) (db : Db)
    → (moved_db now id actor from to kind db).settlement_requests ≡ db.settlement_requests
unfolding moved_db set_trade_state append_trade_event
moved_db-requests now id actor from to kind db = ground arith

create_trade-requests :
    (db db' : Db) (t : Trade) (key : String)
    → create_trade db t key ≡ ok db'
    → db'.settlement_requests ≡ db.settlement_requests
unfolding create_trade
create_trade-requests db db' t key h = ground arith

OneOpen-apart :
    (db db' : Db) → db'.settlement_requests ≡ db.settlement_requests → OneOpen db → OneOpen db'
OneOpen-apart db db' e one id = rw e (one id)

OneOpen-IsKept : IsKept OneOpen
unfolding append_trade_event
OneOpen-IsKept = record {
  moves = λ now id actor from to kind implied db h k one.
      OneOpen-apart db (moved_db now id actor from to kind db)
        (moved_db-requests now id actor from to kind db) one;
  opens = λ now actor key t db db' h made one.
      OneOpen-apart db
        (append_trade_event db' (event_of now t.id actor TradeEventType.proposed none t.state))
        (create_trade-requests db db' t key made) one;
  ignores = λ db db' t e r one. OneOpen-apart db db' r one;
  requests = RequestWrite-OneOpen;
}

-- After any calls, in any order, each of which runs whole, no trade has two issued settlement requests, if none had two
-- before.
pub Steps-OneOpen :
    (api : LedgerApi) (svc : Service) (w v : World api.State)
    → Steps api svc w v
    → OneOpen w.db
    → OneOpen v.db
Steps-OneOpen api svc w v s one = Steps-kept api svc OneOpen-IsKept s one
