-- ===== src/Trade/Audit.antt =====
-- The tables of internal/trade/trade.go against their event log.
use vtessera.Common.{
  ℕ, ◌≡◌, refl, sym, subst, ◌∙◌, true, false, none, some, [], ◌∷◌, ◌++◌, String, str_eq, eq_iff, ok,
  arith, inl, inr, Bool-cases,
}
use vtessera.Domain.{Trade, TradeState, TradeEventType}
use vtessera.Store.{Db, create_trade, append_trade_event, set_trade_state, is_in_state}
use vtessera.Store.Query.{exists_by}
use vtessera.Store.Settlement.Open.{RequestWrite-apart}
use vtessera.Trade.Machine.{can_transition}
use vtessera.Trade.Machine.Lifecycle.{target}
use vtessera.Trade.LedgerApi.{LedgerApi}
use vtessera.Trade.Monad.{Service, World}
use vtessera.Trade.Service.Rows.{
  state_of, has_id, moved_rows, state_eq_self, state_of-in_state, state_of-unmoved, state_of-moved,
  distinct_ids-moved, unmoved, state_of-absent, state_of-append, distinct_ids-append,
}
use vtessera.Trade.Service.Trail.{
  fresh, reached, trail, follow, trail_to, trail-append, IsAudited, is_legal,
}
use vtessera.Trade.Service.Invariant.{IsKept, moved_db, event_of}
use vtessera.Trade.Steps.{Steps, Steps-kept}

pub moved_db-changed :
    (now : ℕ) (id actor : String) (from to : TradeState) (kind : TradeEventType) (db : Db)
    → exists_by (is_in_state id from) db.trades ≡ true
    → moved_db now id actor from to kind db ≡ record db {
      trades = moved_rows id from to now db.trades;
      trade_events = db.trade_events ++ (event_of now id actor kind (some from) to ∷ []);
    }
unfolding moved_db set_trade_state append_trade_event
moved_db-changed now id actor from to kind db h = rw h refl

pub moved_db-unchanged :
    (now : ℕ) (id actor : String) (from to : TradeState) (kind : TradeEventType) (db : Db)
    → exists_by (is_in_state id from) db.trades ≡ false
    → moved_db now id actor from to kind db ≡ db
unfolding moved_db set_trade_state append_trade_event
moved_db-unchanged now id actor from to kind db h = rw (h, unmoved id from to now db.trades h) refl

-- A legal move continues a log that has reached the state moved from.
follow-moved :
    (now : ℕ) (id actor : String) (from to : TradeState) (kind implied : TradeEventType)
    → can_transition from to ≡ some implied
    → target kind ≡ to
    → follow (reached from) (event_of now id actor kind (some from) to) ≡ reached to
unfolding follow
follow-moved now id actor from to kind implied h k =
    rw (state_eq_self from, h, is_legal, k, state_eq_self to) refl

pub moved-logged :
    (now : ℕ) (id j actor : String) (from to : TradeState) (kind implied : TradeEventType) (db : Db)
    → can_transition from to ≡ some implied
    → target kind ≡ to
    → IsAudited db
    → exists_by (is_in_state id from) db.trades ≡ true
    → trail j fresh (db.trade_events ++ (event_of now id actor kind (some from) to ∷ []))
      ≡ trail_to (state_of j (moved_rows id from to now db.trades))
moved-logged now id j actor from to kind implied db h k p e = elim (Bool-cases (str_eq id j)) [
  | inr other ↦
      trail-append j fresh db.trade_events (event_of now id actor kind (some from) to)
      ∙ rw (other, state_of-unmoved id j from to now db.trades other) (p.logged j)
  | inl same ↦
      let here : id ≡ j = ground (arith, eq_iff id j) in
      let found : state_of id db.trades ≡ some from =
        state_of-in_state id from db.trades p.distinct e in
      trail-append j fresh db.trade_events (event_of now id actor kind (some from) to)
      ∙ rw same (
          subst
            (λ i.
              follow (trail i fresh db.trade_events) (event_of now id actor kind (some from) to)
              ≡ trail_to (state_of i (moved_rows id from to now db.trades)))
            here
            (rw (p.logged id, found, state_of-moved id from to now db.trades found)
              (follow-moved now id actor from to kind implied h k)))
]

moved_db-IsAudited :
    (now : ℕ) (id actor : String) (from to : TradeState) (kind implied : TradeEventType) (db : Db)
    → can_transition from to ≡ some implied
    → target kind ≡ to
    → IsAudited db
    → IsAudited (moved_db now id actor from to kind db)
moved_db-IsAudited now id actor from to kind implied db h k p =
    elim (Bool-cases (exists_by (is_in_state id from) db.trades)) [
      | inr e ↦ subst IsAudited (sym (moved_db-unchanged now id actor from to kind db e)) p
      | inl e ↦ subst IsAudited (sym (moved_db-changed now id actor from to kind db e)) (record {
        distinct = distinct_ids-moved id from to now db.trades ∙ p.distinct;
        logged = λ j. moved-logged now id j actor from to kind implied db h k p e;
      })
    ]

-- The row that `CreateTrade` writes is a new one.
pub create_trade-ok :
    (db db' : Db) (t : Trade) (key : String)
    → create_trade db t key ≡ ok db'
    → (exists_by (has_id t.id) db.trades ≡ false)
      × (db'.trades ≡ db.trades ++ (record t { idempotency_key = key } ∷ []))
      × (db'.trade_events ≡ db.trade_events)
unfolding create_trade
create_trade-ok db db' t key h = ground arith

opened-trail :
    (now : ℕ) (actor j : String) (t row : Trade) (db : Db)
    → t.state ≡ TradeState.proposed
    → row.id ≡ t.id
    → exists_by (has_id row.id) db.trades ≡ false
    → IsAudited db
    → t.id ≡ j
    → follow
        (trail j fresh db.trade_events)
        (event_of now t.id actor TradeEventType.proposed none t.state)
      ≡ reached t.state
unfolding follow
opened-trail now actor j t row db h same_id absent p here =
    let unknown : state_of j db.trades ≡ none =
      subst (λ i. state_of i db.trades ≡ none) (same_id ∙ here)
        (state_of-absent row.id db.trades absent) in
    rw (p.logged j, unknown, h, state_eq_self TradeState.proposed) refl

pub opened-logged :
    (now : ℕ) (actor j : String) (t row : Trade) (db : Db)
    → t.state ≡ TradeState.proposed
    → row.id ≡ t.id
    → row.state ≡ t.state
    → exists_by (has_id row.id) db.trades ≡ false
    → IsAudited db
    → trail j fresh
        (db.trade_events ++ (event_of now t.id actor TradeEventType.proposed none t.state ∷ []))
      ≡ trail_to (state_of j (db.trades ++ (row ∷ [])))
opened-logged now actor j t row db h same_id same_state absent p =
    trail-append j fresh db.trade_events
      (event_of now t.id actor TradeEventType.proposed none t.state)
    ∙ rw (state_of-append j db.trades row absent, same_id, same_state)
        (elim (Bool-cases (str_eq t.id j)) [
          | inr other ↦ rw other (p.logged j)
          | inl same ↦
              rw same (
                opened-trail now actor j t row db h same_id absent p
                  (ground (arith, eq_iff t.id j)))
        ])

opened-IsAudited :
    (now : ℕ) (actor key : String) (t : Trade) (db db' : Db)
    → t.state ≡ TradeState.proposed
    → create_trade db t key ≡ ok db'
    → IsAudited db
    → IsAudited
        (append_trade_event db' (event_of now t.id actor TradeEventType.proposed none t.state))
unfolding append_trade_event
opened-IsAudited now actor key t db db' h made p =
    let (absent, rows, events) = create_trade-ok db db' t key made in
    record {
      distinct =
          rw rows
            (distinct_ids-append db.trades (record t { idempotency_key = key }) p.distinct absent);
      logged = λ j.
          rw (events, rows)
            (opened-logged now actor j t (record t { idempotency_key = key }) db h refl refl absent
              p);
    }

pub IsAudited-apart :
    {db db' : Db}
    → db'.trades ≡ db.trades
    → db'.trade_events ≡ db.trade_events
    → IsAudited db
    → IsAudited db'
IsAudited-apart t e p = record { distinct = rw t p.distinct; logged = λ j. rw (t, e) (p.logged j) }

pub IsAudited-IsKept : IsKept IsAudited
IsAudited-IsKept = record {
  moves = moved_db-IsAudited;
  opens = opened-IsAudited;
  ignores = λ db db' t e r p. IsAudited-apart t e p;
  requests = λ w p. let (t, e) = RequestWrite-apart w in IsAudited-apart t e p;
}

-- After any calls, in any order, each of which runs whole, every trade is in the state that its log leads to, each event
-- of the log starting where the one before it ended and being a move of the table.
pub Steps-IsAudited :
    (api : LedgerApi) (svc : Service) (w v : World api.State)
    → Steps api svc w v
    → IsAudited w.db
    → IsAudited v.db
Steps-IsAudited api svc w v s p = Steps-kept api svc IsAudited-IsKept s p
