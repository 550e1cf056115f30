-- ===== src/Trade/Machine/Lifecycle.antt =====
-- The life of a trade by the table of internal/trade/trade.go: its moves, and where they lead.
use vtessera.Common.{ℕ, ◌<◌, ◌≤◌, ◌≡◌, false, some, arith, ◌⊎◌}
use vtessera.Domain.{TradeState, TradeEventType, terminal}
use vtessera.Trade.Machine.{can_transition}

-- The state that an event of the table leaves a trade in.
abbrev pub target : TradeEventType → TradeState
target TradeEventType.proposed = TradeState.proposed
target TradeEventType.negotiating = TradeState.negotiating
target TradeEventType.accepted = TradeState.accepted
target TradeEventType.settlement_pending = TradeState.settlement_pending
target TradeEventType.recorded = TradeState.recorded
target TradeEventType.settled = TradeState.settled
target TradeEventType.cancelled = TradeState.cancelled
target TradeEventType.disputed = TradeState.disputed
target TradeEventType.resolved = TradeState.resolved
target TradeEventType.expired = TradeState.cancelled

-- How many moves a trade may still make.
abbrev pub moves_left : TradeState → ℕ
moves_left TradeState.proposed = 5
moves_left TradeState.negotiating = 4
moves_left TradeState.accepted = 3
moves_left TradeState.settlement_pending = 2
moves_left TradeState.disputed = 1
moves_left _ = 0

-- A move writes the event of the state that it leads to, is made from no terminal state but
-- `disputed`, and leaves fewer moves than before: no trade goes round in a circle.
pub can_transition_sound :
    (from to : TradeState) {kind : TradeEventType}
    → can_transition from to ≡ some kind
    → (target kind ≡ to)
      × ((terminal from ≡ false) ⊎ (from ≡ TradeState.disputed))
      × (moves_left to < moves_left from)
unfolding can_transition terminal
can_transition_sound from to h = ground arith

-- One move of the table.
abbrev pub Moves : TradeState → TradeState → Type 0
Moves s t = (kind : TradeEventType) × (can_transition s t ≡ some kind)

pub data Reaches : TradeState → TradeState → Type 0 where
  here : {s : TradeState} → Reaches s s
  next : {s t u : TradeState} → Moves s t → Reaches t u → Reaches s u

pub Reaches-moves_left : {s t : TradeState} → Reaches s t → moves_left t ≤ moves_left s
Reaches-moves_left here = omega arith
Reaches-moves_left (next {s = s} {t = t} (kind, e) r) =
    omega (arith, (can_transition_sound s t e).2, Reaches-moves_left r)
