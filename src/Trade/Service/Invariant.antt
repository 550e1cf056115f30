-- ===== src/Trade/Service/Invariant.antt =====
-- The ways in which internal/trade/trade.go writes trades, their log and their settlement requests, and the properties
-- that are closed under them.
use vtessera.Common.{
  ℕ, ◌⊎◌, ◌≡◌, refl, sym, subst, Bool, true, false, Option, none, some, if◌then◌else◌, String,
  Result, ok, err, arith, inl, inr, Option-cases, Result-cases,
}
use vtessera.Domain.{Trade, TradeState, TradeEvent, TradeEventType}
use vtessera.Store.{Db, create_trade, set_trade_state, append_trade_event}
use vtessera.Store.Settlement.Open.{RequestWrite}
use vtessera.Trade.Machine.{can_transition}
use vtessera.Trade.Machine.Lifecycle.{target, can_transition_sound}
use vtessera.Trade.Monad.{
  TradeError, World, M, pure, throw, throw_if, gets, or_throw, lift, ◌>>=◌, illegal_state,
}
use vtessera.Trade.Service.{read_trade, party_trade, move, apply_as, apply}

abbrev pub event_of :
    ℕ → String → String → TradeEventType → Option TradeState → TradeState → TradeEvent
event_of now id actor kind from to = record {
  trade_id = id;
  actor_agent_id = actor;
  event_type = kind;
  from_state = from;
  to_state = to;
  created_at = now;
}

-- The tables after a move of the trade, if it still is in the state that was read.
unfoldable pub moved_db : ℕ → String → String → TradeState → TradeState → TradeEventType → Db → Db
moved_db now id actor from to kind db =
    let (changed, moved) = set_trade_state db id from to now in
    if changed then append_trade_event moved (event_of now id actor kind (some from) to) else moved

pub record IsKept (P : Db → Type 0) : Type 0 where
  pub moves :
      (now : ℕ) (id actor : String) (from to : TradeState) (kind implied : TradeEventType) (db : Db)
      → can_transition from to ≡ some implied
      → target kind ≡ to
      → P db
      → P (moved_db now id actor from to kind db)
  pub opens :
      (now : ℕ) (actor key : String) (t : Trade) (db db' : Db)
      → t.state ≡ TradeState.proposed
      → create_trade db t key ≡ ok db'
      → P db
      → P (append_trade_event db' (event_of now t.id actor TradeEventType.proposed none t.state))
  pub ignores :
      (db db' : Db)
      → db'.trades ≡ db.trades
      → db'.trade_events ≡ db.trade_events
      → db'.settlement_requests ≡ db.settlement_requests
      → P db
      → P db'
  pub requests : {db db' : Db} → RequestWrite db db' → P db → P db'

-- A method keeps a property of the tables, whether it returns a value or an error.
pub record Maintains {L A : Type 0} (P : Db → Type 0) (m : M L A) : Type 0 where
  pub at : (w : World L) → P w.db → P (m w).1.db

module _ {L A : Type 0} {P : Db → Type 0} where
  pub pure-Maintains : (a : A) → Maintains {L = L} P (pure a)
  unfolding pure
  pure-Maintains a = record { at = λ w p. p }

  pub throw-Maintains : (e : TradeError) → Maintains {L = L} P (throw {A = A} e)
  unfolding throw
  throw-Maintains e = record { at = λ w p. p }

  pub gets-Maintains : (f : Db → A) → Maintains {L = L} P (gets f)
  unfolding gets
  gets-Maintains f = record { at = λ w p. p }

  pub if-Maintains :
      (b : Bool) (m k : M L A) → Maintains P m → Maintains P k → Maintains P (if b then m else k)
  if-Maintains true m k h g = h
  if-Maintains false m k h g = g

  pub or_throw-Maintains : (o : Option A) (e : TradeError) → Maintains {L = L} P (or_throw o e)
  unfolding or_throw
  or_throw-Maintains none e = record { at = λ w p. p }
  or_throw-Maintains (some a) e = record { at = λ w p. p }

  pub lift-Maintains : (r : Result TradeError A) → Maintains {L = L} P (lift r)
  unfolding lift
  lift-Maintains (ok a) = record { at = λ w p. p }
  lift-Maintains (err e) = record { at = λ w p. p }

module _ {L : Type 0} {P : Db → Type 0} where
  pub throw_if-Maintains : (b : Bool) (e : TradeError) → Maintains {L = L} P (throw_if b e)
  unfolding throw_if
  throw_if-Maintains true e = record { at = λ w p. p }
  throw_if-Maintains false e = record { at = λ w p. p }

  pub bind-Maintains :
      {A B : Type 0} (first : M L A) (next : A → M L B) (kept : Maintains P first)
      → ((got : A) → Maintains P (next got))
      → Maintains P (first >>= next)
  unfolding ◌>>=◌
  bind-Maintains first next kept later = record {
    at = λ w p. elim (Result-cases (first w).0) [
      | inl (got, e) ↦ rw e ((later got).at (first w).1 (kept.at w p))
      | inr (x, e) ↦ rw e (kept.at w p)
    ];
  }

pub ruleset keeping = (
  bind-Maintains, if-Maintains, pure-Maintains, throw-Maintains, gets-Maintains, or_throw-Maintains,
  lift-Maintains, throw_if-Maintains,
)

module _ {L : Type 0} {P : Db → Type 0} where
  pub read_trade-Maintains : (id : String) → Maintains {L = L} P (read_trade id)
  unfolding read_trade
  read_trade-Maintains id = search keeping

  pub party_trade-Maintains : (actor id : String) → Maintains {L = L} P (party_trade actor id)
  unfolding party_trade
  party_trade-Maintains actor id = search (keeping, read_trade-Maintains)

module _ {L : Type 0} where
  -- The tables that a move leaves.
  move-db :
      (now : ℕ) (tr : Trade) (actor : String) (to : TradeState) (kind : TradeEventType)
      (w : World L)
      → (move now tr actor to kind w).1.db ≡ moved_db now tr.id actor tr.state to kind w.db
  unfolding move moved_db read_trade ◌>>=◌
  move-db now tr actor to kind w = ground arith

  -- What `applyAs` does to the tables: nothing, or a move.
  pub apply_as-db :
      (now : ℕ) (tr : Trade) (actor : String) (to : TradeState) (kind : TradeEventType)
      (w : World L)
      → ((apply_as now tr actor to (some kind) w).1.db ≡ w.db)
        ⊎ ((apply_as now tr actor to (some kind) w).1.db
            ≡ moved_db now tr.id actor tr.state to kind w.db)
  unfolding apply_as throw
  apply_as-db now tr actor to kind w = elim (Option-cases (can_transition tr.state to)) [
    | inl e ↦ inl (rw (e, apply_as) refl)
    | inr (implied, e) ↦ inr (rw (e, apply_as) (move-db now tr actor to kind w))
  ]

module _ {L : Type 0} where
  move-ledger :
      (now : ℕ) (tr : Trade) (actor : String) (to : TradeState) (kind : TradeEventType)
      (w : World L)
      → (move now tr actor to kind w).1.ledger ≡ w.ledger
  unfolding move read_trade ◌>>=◌
  move-ledger now tr actor to kind w = ground arith

  -- A move that the table allows is made, and the ledger is not asked.
  pub apply-moves :
      (now : ℕ) (tr : Trade) (actor : String) (to : TradeState) (kind : TradeEventType)
      (w : World L)
      → can_transition tr.state to ≡ some kind
      → ((apply now tr actor to w).1.db ≡ moved_db now tr.id actor tr.state to kind w.db)
        × ((apply now tr actor to w).1.ledger ≡ w.ledger)
  unfolding apply apply_as
  apply-moves now tr actor to kind w h = (
    rw (h, apply, apply_as) (move-db now tr actor to kind w),
    rw (h, apply, apply_as) (move-ledger now tr actor to kind w),
  )

-- An event that is asked for leads where the trade goes.
abbrev pub LeadsTo : Option TradeEventType → TradeState → Type 0
LeadsTo none to = Unit
LeadsTo (some kind) to = target kind ≡ to

module _ {L : Type 0} {P : Db → Type 0} (kept : IsKept P) where
  move-Maintains :
      (now : ℕ) (tr : Trade) (actor : String) (to : TradeState) (kind implied : TradeEventType)
      → can_transition tr.state to ≡ some implied
      → target kind ≡ to
      → Maintains {L = L} P (move now tr actor to kind)
  move-Maintains now tr actor to kind implied h k = record {
    at = λ w p.
        subst P (sym (move-db now tr actor to kind w))
          (kept.moves now tr.id actor tr.state to kind implied w.db h k p);
  }

  pub apply_as-Maintains :
      (now : ℕ) (tr : Trade) (actor : String) (to : TradeState) (event : Option TradeEventType)
      → LeadsTo event to
      → Maintains {L = L} P (apply_as now tr actor to event)
  unfolding apply_as
  apply_as-Maintains now tr actor to event h = elim (Option-cases (can_transition tr.state to)) [
    | inl e ↦ rw (e, apply_as) (throw-Maintains illegal_state)
    | inr (implied, e) ↦ rw (e, apply_as) (either event h implied e)
  ]
    where
      either :
          (event : Option TradeEventType)
          → LeadsTo event to
          → (implied : TradeEventType) → can_transition tr.state to ≡ some implied
          → Maintains {L = L} P
              (elim event [ none ↦ move now tr actor to implied | some e ↦ move now tr actor to e ])
      either none h implied e =
          move-Maintains now tr actor to implied implied e (can_transition_sound tr.state to e).0
      either (some kind) h implied e = move-Maintains now tr actor to kind implied e h

  pub apply-Maintains :
      (now : ℕ) (tr : Trade) (actor : String) (to : TradeState)
      → Maintains {L = L} P (apply now tr actor to)
  unfolding apply
  apply-Maintains now tr actor to = apply_as-Maintains now tr actor to none tt
