-- ===== src/Trade/Interleaved/History.antt =====
-- internal/trade/trade.go, calls that run between the transactions of another: the log lacks what is in
-- flight and may have another order than the moves of the rows, and no event is made up or lost.
use mathlib.Core.List.{Perm, perm_middle}
use mathlib.Core.List.Perm
use vtessera.Common.{
  ℕ, ◌≡◌, refl, sym, subst, ◌∙◌, true, Option, none, some, List, [], ◌∷◌, ◌++◌, append_assoc,
  append-nil, String, inl, inr, Bool-cases, Option-cases, Result-cases,
}
use vtessera.Domain.{Trade, TradeState, TradeEvent, TradeEventType}
use vtessera.Store.{Db, create_trade, append_trade_event, set_trade_state, is_in_state}
use vtessera.Store.Query.{exists_by}
use vtessera.Trade.Machine.{can_transition}
use vtessera.Trade.Machine.Lifecycle.{target, can_transition_sound}
use vtessera.Trade.Service.Rows.{moved_rows, distinct_ids-moved, distinct_ids-append, unmoved}
use vtessera.Trade.Service.Trail.{IsAudited}
use vtessera.Trade.Service.Invariant.{LeadsTo, event_of}
use vtessera.Trade.Interleaved.{
  Running, Turn, Turns, begin_move, begin_create, kind_of, moves, opens, logs, elsewhere, none_yet,
  then_one,
}
use vtessera.Trade.Audit.{create_trade-ok, moved-logged, opened-logged, IsAudited-apart}

-- The tables with another log.
abbrev pub with_log : Db → List TradeEvent → Db
with_log db h = record db { trade_events = h }

-- There is an order of the events in the log and in flight that accounts for every trade.
pub record Accounts (r : Running) : Type 0 where
  pub history : List TradeEvent
  pub audited : IsAudited (with_log r.db history)
  pub same_events : Perm history (r.db.trade_events ++ r.in_flight)

later-Perm :
    (h log flying : List TradeEvent) (e : TradeEvent)
    → Perm h (log ++ flying)
    → Perm (h ++ (e ∷ [])) (log ++ (flying ++ (e ∷ [])))
later-Perm h log flying e p =
    subst (Perm (h ++ (e ∷ []))) (append_assoc log flying (e ∷ [])) (Perm.append_right (e ∷ []) p)

logged-Perm :
    (h log before after : List TradeEvent) (e : TradeEvent)
    → Perm h (log ++ (before ++ (e ∷ after)))
    → Perm h ((log ++ (e ∷ [])) ++ (before ++ after))
logged-Perm h log before after e p =
    subst (Perm h) (sym (append_assoc log (e ∷ []) (before ++ after)))
      (Perm.trans p (Perm.append_left log (perm_middle before after)))

kind_of-target :
    (event : Option TradeEventType) (implied : TradeEventType) (from to : TradeState)
    → can_transition from to ≡ some implied
    → LeadsTo event to
    → target (kind_of event implied) ≡ to
kind_of-target none implied from to e leads = (can_transition_sound from to e).0
kind_of-target (some kind) implied from to e leads = leads

-- The row changed: its event goes to the end of the history.
moved-Accounts :
    (r : Running) (now : ℕ) (id actor : String) (from to : TradeState)
    (kind implied : TradeEventType)
    → can_transition from to ≡ some implied
    → target kind ≡ to
    → exists_by (is_in_state id from) r.db.trades ≡ true
    → Accounts r
    → Accounts (record {
      db = record r.db { trades = moved_rows id from to now r.db.trades };
      in_flight = r.in_flight ++ (event_of now id actor kind (some from) to ∷ []);
    })
moved-Accounts r now id actor from to kind implied legal leads found a =
    let e = event_of now id actor kind (some from) to in
    let old = with_log r.db a.history in
    record {
      history = a.history ++ (e ∷ []);
      audited = record {
        distinct = distinct_ids-moved id from to now r.db.trades ∙ a.audited.distinct;
        logged =
            λ j. moved-logged now id j actor from to kind implied old legal leads a.audited found;
      };
      same_events = later-Perm a.history r.db.trade_events r.in_flight e a.same_events;
    }

begin_move-Accounts :
    (r : Running) (now : ℕ) (id actor : String) (from to : TradeState)
    (event : Option TradeEventType)
    → LeadsTo event to
    → Accounts r
    → Accounts (begin_move now id actor from to event r)
unfolding begin_move set_trade_state
begin_move-Accounts r now id actor from to event leads a =
    elim (Option-cases (can_transition from to)) [
      | inl e ↦ rw (e, begin_move) a
      | inr (implied, e) ↦
          rw (e, begin_move)
            (elim (Bool-cases (exists_by (is_in_state id from) r.db.trades)) [
              | inr missed ↦ rw (missed, unmoved id from to now r.db.trades missed) a
              | inl found ↦ rw found (
                  moved-Accounts r now id actor from to (kind_of event implied) implied e
                    (kind_of-target event implied from to e leads) found a)
            ])
    ]

begin_create-Accounts :
    (r : Running) (now : ℕ) (actor key : String) (t : Trade)
    → t.state ≡ TradeState.proposed
    → Accounts r
    → Accounts (begin_create now actor key t r)
unfolding begin_create
begin_create-Accounts r now actor key t h a = elim (Result-cases (create_trade r.db t key)) [
  | inr (x, e) ↦ rw (e, begin_create) a
  | inl (db, e) ↦
      rw (e, begin_create)
        (let (absent, rows, events) = create_trade-ok r.db db t key e in
          let opened = event_of now t.id actor TradeEventType.proposed none t.state in
          let row = record t { idempotency_key = key } in
          let old = with_log r.db a.history in
          record {
            history = a.history ++ (opened ∷ []);
            audited = record {
              distinct = rw rows (distinct_ids-append r.db.trades row a.audited.distinct absent);
              logged =
                  λ j. rw rows (opened-logged now actor j t row old h refl refl absent a.audited);
            };
            same_events =
                rw events (later-Perm a.history r.db.trade_events r.in_flight opened a.same_events);
          })
]

pub Turn-Accounts : {r s : Running} → Turn r s → Accounts r → Accounts s
unfolding append_trade_event
Turn-Accounts (moves r now id actor from to event leads) a =
    begin_move-Accounts r now id actor from to event leads a
Turn-Accounts (opens r now actor key t h) a = begin_create-Accounts r now actor key t h a
Turn-Accounts (logs r before after e h) a = record {
  history = a.history;
  audited = IsAudited-apart refl refl a.audited;
  same_events = logged-Perm a.history r.db.trade_events before after e (rw h at a.same_events);
}
Turn-Accounts (elsewhere r db t e) a = record {
  history = a.history;
  audited = IsAudited-apart t refl a.audited;
  same_events = rw e a.same_events;
}

-- From tables that agree with their log, with no write in flight, and after any interleaving of the
-- transactions of any calls, the events in the log and in flight are, in some order, a history in
-- which every trade is in the state that its events lead to, each starting where the one before it
-- ended and being a move of the table.
pub Turns-Accounts :
    (r s : Running)
    → Turns r s
    → IsAudited r.db
    → r.in_flight ≡ []
    → (history : List TradeEvent) × IsAudited (with_log s.db history)
      × Perm history (s.db.trade_events ++ s.in_flight)
Turns-Accounts r s turns p idle =
    let end = through turns (record {
      history = r.db.trade_events;
      audited = IsAudited-apart refl refl p;
      same_events = rw (idle, append-nil r.db.trade_events) (Perm.refl r.db.trade_events);
    }) in
    (end.history, end.audited, end.same_events)
  where
    through : {q u : Running} → Turns q u → Accounts q → Accounts u
    through none_yet a = a
    through (then_one before last) a = Turn-Accounts last (through before a)
