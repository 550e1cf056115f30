-- ===== src/Trade/Sweep/Due.antt =====
-- `ExpireAccepted` of internal/trade/trade.go and the trades that are not due.
use vtessera.Common.{
  ℕ, suc, ◌+◌, ◌<◌, ◌≡◌, ◌⊎◌, sym, ap, subst, ◌∙◌, true, false, some, List, [], ◌∷◌, ltb, String,
  str_eq, eq_iff, arith, inl, inr, Result-cases, Bool-cases,
}
use vtessera.Domain.{Trade, TradeState, TradeEventType, state_eq}
use vtessera.Store.{
  Db, accepted_before, trade_acceptance, acceptances_of, set_trade_state, append_trade_event,
}
use vtessera.Trade.Monad.{Service, World}
use vtessera.Trade.Service.{apply_as, expired, acceptance_deadline}
use vtessera.Trade.Service.Rows.{state_of, state_of-unmoved, state_of-kept, state_eq-eq}
use vtessera.Trade.Service.Invariant.{apply_as-db, moved_db}
use vtessera.Trade.Sweep.{expire_each, expire_accepted, accepted_due, is_illegal_state}

pub moved_db-rows :
    (now : ℕ) (id actor : String) (from to : TradeState) (kind : TradeEventType) (db : Db)
    → ((moved_db now id actor from to kind db).trades
        ≡ (set_trade_state db id from to now).1.trades)
      × ((moved_db now id actor from to kind db).trade_acceptances ≡ db.trade_acceptances)
unfolding moved_db set_trade_state append_trade_event
moved_db-rows now id actor from to kind db = (ground arith, ground arith)

-- A trade that the sweep has to leave: it is not accepted, or its deadline is still to come.
abbrev pub IsSpared : Service → ℕ → Db → String → TradeState → Type 0
IsSpared svc now db id s =
    (state_eq s TradeState.accepted ≡ false)
    ⊎ ((at : ℕ) × (trade_acceptance db id ≡ some at) × (now < at + svc.accept_ttl))

-- A row that is due is another trade's, or in another state.
due-other :
    {L : Type 0} (svc : Service) (now : ℕ) (w : World L) (tr : Trade) (id : String) (s : TradeState)
    → accepted_due svc now w tr ≡ true
    → IsSpared svc now w.db id s
    → (str_eq tr.id id ≡ false) ⊎ (state_eq s tr.state ≡ false)
unfolding expired acceptance_deadline
due-other svc now w tr id s due (inl other) =
    inr (rw (state_eq-eq tr.state TradeState.accepted (ground arith)) other)
due-other svc now w tr id s due (inr (at, e, early)) = elim (Bool-cases (str_eq tr.id id)) [
  | inr other ↦ inl other
  | inl same ↦
      let here : tr.id ≡ id = ground (arith, eq_iff tr.id id) in
      let stamped : trade_acceptance w.db tr.id ≡ some at = ap (trade_acceptance w.db) here ∙ e in
      absurd (ground arith)
]

-- A trade that is spared keeps its state, and is spared still.
abbrev Stays : Service → ℕ → String → TradeState → Db → Type 0
Stays svc now id s db = (state_of id db.trades ≡ some s) × IsSpared svc now db id s

trade_acceptance-same :
    (before after : Db) (id : String)
    → after.trade_acceptances ≡ before.trade_acceptances
    → trade_acceptance after id ≡ trade_acceptance before id
unfolding trade_acceptance acceptances_of
trade_acceptance-same before after id h =
    ap (λ rows. trade_acceptance (record before { trade_acceptances = rows }) id) h

IsSpared-same :
    (svc : Service) (now : ℕ) (before after : Db) (id : String) (s : TradeState)
    → after.trade_acceptances ≡ before.trade_acceptances
    → IsSpared svc now before id s
    → IsSpared svc now after id s
IsSpared-same svc now before after id s h (inl other) = inl other
IsSpared-same svc now before after id s h (inr (at, e, early)) =
    inr (at, trade_acceptance-same before after id h ∙ e, early)

moved-Stays :
    (svc : Service) (now : ℕ) (id : String) (s : TradeState) (tr : Trade) (actor : String)
    (to : TradeState) (kind : TradeEventType) (db : Db)
    → (str_eq tr.id id ≡ false) ⊎ (state_eq s tr.state ≡ false)
    → Stays svc now id s db
    → Stays svc now id s (moved_db now tr.id actor tr.state to kind db)
unfolding set_trade_state
moved-Stays svc now id s tr actor to kind db apart (e, spared) =
    let (rows, same) = moved_db-rows now tr.id actor tr.state to kind db in
    (
      rw rows (kept apart),
      IsSpared-same svc now db (moved_db now tr.id actor tr.state to kind db) id s same spared,
    )
  where
    kept :
        (str_eq tr.id id ≡ false) ⊎ (state_eq s tr.state ≡ false)
        → state_of id (set_trade_state db tr.id tr.state to now).1.trades ≡ some s
    kept (inl other) = state_of-unmoved tr.id id tr.state to now db.trades other ∙ e
    kept (inr differs) = state_of-kept tr.id id tr.state to s now db.trades e differs

apply_as-Stays :
    {L : Type 0} (svc : Service) (now : ℕ) (id : String) (s : TradeState) (tr : Trade) (w : World L)
    → (str_eq tr.id id ≡ false) ⊎ (state_eq s tr.state ≡ false)
    → Stays svc now id s w.db
    → Stays svc now id s
        (apply_as now tr "" TradeState.cancelled (some TradeEventType.expired) w).1.db
apply_as-Stays svc now id s tr w apart p =
    elim (apply_as-db now tr "" TradeState.cancelled TradeEventType.expired w) [
      | inl e ↦ subst (Stays svc now id s) (sym e) p
      | inr e ↦
          subst (Stays svc now id s) (sym e) (
            moved-Stays svc now id s tr "" TradeState.cancelled TradeEventType.expired w.db apart p)
    ]

expire_each-Stays :
    {L : Type 0} (svc : Service) (now : ℕ) (id : String) (s : TradeState) (trades : List Trade)
    (count : ℕ) (w : World L)
    → Stays svc now id s w.db
    → Stays svc now id s (expire_each (accepted_due svc now) now trades count w).1.db
unfolding expire_each
expire_each-Stays svc now id s [] count w p = p
expire_each-Stays svc now id s (tr ∷ trades) count w p =
    elim (Bool-cases (accepted_due svc now w tr)) [
      | inr e ↦ rw (e, expire_each) (expire_each-Stays svc now id s trades count w p)
      | inl e ↦
          let (r, w') = apply_as now tr "" TradeState.cancelled (some TradeEventType.expired) w in
          let q : Stays svc now id s w'.db =
            apply_as-Stays svc now id s tr w (due-other svc now w tr id s e p.1) p in
          elim (Result-cases r) [
            | inl (t, f) ↦
                rw (e, f, expire_each) (expire_each-Stays svc now id s trades (suc count) w' q)
            | inr (x, f) ↦ elim (Bool-cases (is_illegal_state x)) [
              | inl g ↦ rw (e, f, g, expire_each) (expire_each-Stays svc now id s trades count w' q)
              | inr g ↦ rw (e, f, g, expire_each) q
            ]
          ]
    ]

-- The sweep of accepted trades leaves every trade that is not accepted, or whose deadline is still
-- to come, in the state that it is in.
pub expire_accepted-spares :
    {L : Type 0} (svc : Service) (now limit : ℕ) (w : World L) (id : String) (s : TradeState)
    → state_of id w.db.trades ≡ some s
    → IsSpared svc now w.db id s
    → state_of id (expire_accepted svc now limit w).1.db.trades ≡ some s
unfolding expire_accepted
expire_accepted-spares svc now limit w id s e spared = elim (Bool-cases (ltb 0 svc.accept_ttl)) [
  | inl f ↦
      rw (f, expire_accepted)
        (expire_each-Stays svc now id s (accepted_before w.db now limit) 0 w (e, spared)).0
  | inr f ↦ rw (f, expire_accepted) e
]
