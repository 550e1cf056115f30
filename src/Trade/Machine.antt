-- ===== src/Trade/Machine.antt =====
-- internal/trade/trade.go: the table `transitions`, and `canTransition`.
pub mod Lifecycle
use vtessera.Common.{Option, none, some}
use vtessera.Domain.{TradeState, TradeEventType}

unfoldable pub can_transition : TradeState → TradeState → Option TradeEventType
can_transition TradeState.proposed TradeState.negotiating = some TradeEventType.negotiating
can_transition TradeState.proposed TradeState.cancelled = some TradeEventType.cancelled
can_transition TradeState.negotiating TradeState.accepted = some TradeEventType.accepted
can_transition TradeState.negotiating TradeState.cancelled = some TradeEventType.cancelled
can_transition TradeState.accepted TradeState.settlement_pending =
    some TradeEventType.settlement_pending
can_transition TradeState.accepted TradeState.recorded = some TradeEventType.recorded
can_transition TradeState.accepted TradeState.disputed = some TradeEventType.disputed
can_transition TradeState.accepted TradeState.cancelled = some TradeEventType.cancelled
can_transition TradeState.settlement_pending TradeState.settled = some TradeEventType.settled
can_transition TradeState.settlement_pending TradeState.disputed = some TradeEventType.disputed
can_transition TradeState.settlement_pending TradeState.cancelled = some TradeEventType.cancelled
can_transition TradeState.disputed TradeState.resolved = some TradeEventType.resolved
can_transition _ _ = none
