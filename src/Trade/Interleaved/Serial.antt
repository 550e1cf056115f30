-- ===== src/Trade/Interleaved/Serial.antt =====
-- internal/trade/trade.go: a call that runs whole is its transactions, one after the other.
use vtessera.Common.{◌≡◌, refl, sym, subst, none, some, [], ok, inl, inr, Bool-cases, ℕ, String}
use vtessera.Domain.{Trade, TradeState, TradeEventType}
use vtessera.Store.{Db, create_trade, append_trade_event, set_trade_state, is_in_state}
use vtessera.Store.Query.{exists_by}
use vtessera.Store.Settlement.Open.{RequestWrite-apart}
use vtessera.Trade.Machine.{can_transition}
use vtessera.Trade.Machine.Lifecycle.{target}
use vtessera.Trade.LedgerApi.{LedgerApi}
use vtessera.Trade.Monad.{Service, World}
use vtessera.Trade.Service.Invariant.{IsKept, moved_db, event_of}
use vtessera.Trade.Steps.{Steps, Steps-kept}
use vtessera.Trade.Audit.{moved_db-changed, moved_db-unchanged}
use vtessera.Trade.Interleaved.{Running, Turn, Turns, begin_move, begin_create}

-- No call is under way.
abbrev pub idle : Db → Running
idle db = record { db = db; in_flight = [] }

moved_db-Turns :
    (q : Running) (now : ℕ) (id actor : String) (from to : TradeState)
    (kind implied : TradeEventType) (db : Db)
    → can_transition from to ≡ some implied
    → target kind ≡ to
    → Turns q (idle db)
    → Turns q (idle (moved_db now id actor from to kind db))
unfolding begin_move set_trade_state append_trade_event
moved_db-Turns q now id actor from to kind implied db legal leads before =
    elim (Bool-cases (exists_by (is_in_state id from) db.trades)) [
      | inr missed ↦
          subst (λ d. Turns q (idle d))
            (sym (moved_db-unchanged now id actor from to kind db missed)) before
      | inl found ↦
          let e = event_of now id actor kind (some from) to in
          let moved : Turns q (begin_move now id actor from to (some kind) (idle db)) =
            Turns.then_one before (Turn.moves (idle db) now id actor from to (some kind) leads) in
          subst (λ d. Turns q (idle d)) (sym (moved_db-changed now id actor from to kind db found))
            (Turns.then_one (rw (begin_move, legal, found) at moved) (Turn.logs _ [] [] e refl))
    ]

create_trade-Turns :
    (q : Running) (now : ℕ) (actor key : String) (t : Trade) (db db' : Db)
    → t.state ≡ TradeState.proposed
    → create_trade db t key ≡ ok db'
    → Turns q (idle db)
    → Turns q (
        idle
          (append_trade_event db' (event_of now t.id actor TradeEventType.proposed none t.state)))
unfolding begin_create create_trade exists_by
create_trade-Turns q now actor key t db db' h made before =
    let e = event_of now t.id actor TradeEventType.proposed none t.state in
    let opened : Turns q (begin_create now actor key t (idle db)) =
      Turns.then_one before (Turn.opens (idle db) now actor key t h) in
    Turns.then_one (rw made at opened) (Turn.logs _ [] [] e refl)

Turns-IsKept : (q : Running) → IsKept (λ db. Turns q (idle db))
Turns-IsKept q = record {
  moves = moved_db-Turns q;
  opens = create_trade-Turns q;
  ignores = λ db db' t e r before. Turns.then_one before (Turn.elsewhere (idle db) db' t e);
  requests = λ {db} {db'} w before.
      let (t, e) = RequestWrite-apart w in Turns.then_one before (Turn.elsewhere (idle db) db' t e);
}

-- Calls that run one after the other are an interleaving of transactions.
pub Steps-Turns :
    (api : LedgerApi) (svc : Service) (w v : World api.State)
    → Steps api svc w v
    → Turns (idle w.db) (idle v.db)
Steps-Turns api svc w v s = Steps-kept api svc (Turns-IsKept (idle w.db)) s Turns.none_yet
