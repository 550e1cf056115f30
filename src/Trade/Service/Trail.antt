-- ===== src/Trade/Service/Trail.antt =====
-- The event log of internal/trade/trade.go read as an auditor reads it: the state that the events
-- of a trade add up to, and what it means that the tables agree with their log.
use vtessera.Common.{
  ◌≡◌, refl, Bool, true, false, ◌&&◌, Option, none, some, List, [], ◌∷◌, ◌++◌, if◌then◌else◌,
  String, str_eq,
}
use vtessera.Domain.{TradeState, TradeEvent, state_eq}
use vtessera.Store.{Db}
use vtessera.Trade.Machine.{can_transition}
use vtessera.Trade.Machine.Lifecycle.{target}
use vtessera.Trade.Service.Rows.{state_of, distinct_ids}

-- What the events of a trade add up to: nothing yet, a state, or a log that does not add up.
pub data Trail : Type 0 where
  fresh broken : Trail
  reached : TradeState → Trail

abbrev pub is_legal : TradeState → TradeState → Bool
is_legal from to = elim (can_transition from to) [ none ↦ false | some kind ↦ true ]

-- A first event opens the trade.
abbrev pub opens : TradeEvent → Trail
opens e = elim e.from_state [
  | some s ↦ broken
  | none ↦ if state_eq e.to_state TradeState.proposed then reached e.to_state else broken
]

-- A later event starts where the last one ended, makes a move of the table, and is of the kind
-- that leads to its state.
abbrev pub continues : TradeState → TradeEvent → Trail
continues s e = elim e.from_state [
  | none ↦ broken
  | some from ↦
      if state_eq s from && is_legal from e.to_state && state_eq (target e.event_type) e.to_state
      then reached e.to_state
      else broken
]

unfoldable pub follow : Trail → TradeEvent → Trail
follow fresh e = opens e
follow (reached s) e = continues s e
follow broken e = broken

-- The trail of one trade through the log.
unfoldable pub trail : String → Trail → List TradeEvent → Trail
trail id at [] = at
trail id at (e ∷ es) = trail id (if str_eq e.trade_id id then follow at e else at) es

abbrev pub trail_to : Option TradeState → Trail
trail_to none = fresh
trail_to (some s) = reached s

-- Every trade is in the state that its events lead to through moves of the table, and a trade that
-- is not there has none.
pub record IsAudited (db : Db) : Type 0 where
  pub distinct : distinct_ids db.trades ≡ true
  pub logged : (id : String) → trail id fresh db.trade_events ≡ trail_to (state_of id db.trades)

pub trail-append :
    (id : String) (at : Trail) (es : List TradeEvent) (e : TradeEvent)
    → trail id at (es ++ (e ∷ []))
      ≡ (if str_eq e.trade_id id then follow (trail id at es) e else trail id at es)
unfolding trail
trail-append id at [] e = refl
trail-append id at (x ∷ es) e =
    trail-append id (if str_eq x.trade_id id then follow at x else at) es e
