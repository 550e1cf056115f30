-- ===== src/Store/Spend.antt =====
-- internal/store/limits.go: what a buyer is engaged for. The query's groups come in no stated
-- order; here they come in that of the table.
use vtessera.Common.{ℕ, max, Bool, true, false, not, ◌&&◌, none, some, List, leb, String, str_eq}
use vtessera.Domain.{Trade, TradeState, TradeEvent, SpendRow}
use vtessera.Store.{Db}
use vtessera.Store.Query.{filter_by, min_by, collect}

-- `releasedStates`
abbrev pub is_released : TradeState → Bool
is_released TradeState.cancelled = true
is_released TradeState.resolved = true
is_released _ = false

-- `committedStates`
abbrev pub is_committed : TradeState → Bool
is_committed TradeState.settlement_pending = true
is_committed TradeState.recorded = true
is_committed TradeState.settled = true
is_committed TradeState.disputed = true
is_committed _ = false

abbrev pub enters_committed : String → TradeEvent → Bool
enters_committed trade_id e = str_eq e.trade_id trade_id && is_committed e.to_state

-- COALESCE(MIN(created_at), 0)
abbrev pub first_at : List TradeEvent → ℕ
first_at es = elim (min_by (λ e. e.created_at) es) [ none ↦ 0 | some at ↦ at ]

-- The first entry into a committed state, or 0.
unfoldable pub committed_at : Db → String → ℕ
committed_at db trade_id = first_at (filter_by (enters_committed trade_id) db.trade_events)

-- When the exposure of a trade starts to count.
unfoldable pub engaged_at : Db → Trade → ℕ
unfolding committed_at
engaged_at db t = max t.created_at (committed_at db t.id)

unfoldable pub is_charged : Db → String → ℕ → String → Trade → Bool
unfolding engaged_at
is_charged db buyer since exclude t =
    str_eq t.buyer_agent_id buyer
    && not (str_eq t.id exclude)
    && leb since (engaged_at db t)
    && not (is_released t.state)

abbrev pub spend_row : Trade → SpendRow
spend_row t = record { mint = t.mint; amount = t.amount }

unfoldable pub committed_spend_since : Db → String → ℕ → String → List SpendRow
unfolding is_charged
committed_spend_since db buyer since exclude =
    collect spend_row (filter_by (is_charged db buyer since exclude) db.trades)
