-- ===== src/Store.antt =====
-- internal/store: the tables that a trade touches (trades.go, limits.go, settlement.go, offers.go,
-- agents.go), with the queries as functions on them. A transaction that fails leaves the tables as
-- they were, so a write returns the new tables or an error. A working database is assumed: of its
-- errors only those of the schema's constraints are here. The amounts in the rows are amounts that
-- `Parse` let through, so a scan of a trade does not fail.
pub mod Query
pub mod Spend
pub mod Retire
pub mod Live
pub mod Settlement
mod Tests
use vtessera.Common.{
  ℕ, ◌-◌, max, Bool, true, false, not, ◌&&◌, ◌||◌, Option, none, some, List, [], ◌∷◌, ◌++◌, ltb,
  leb, ◌==◌, if◌then◌else◌, take, is_empty, String, str_eq, Dict, lookup, insert, Result, ok, err,
  ◌>>=◌, ◌>>◌, reject_if,
}
use Prim.Native.String.{compare}
use text.Mathlib.Text.{is_lt}
use vtessera.Money.{Amount, parse}
use vtessera.Domain.{
  Agent, Retirement, Offer, Trade, TradeState, TradeEvent, AgentLimits, SpendRow, SettlementRequest,
  OfferStatus, is_issued, is_open, state_eq,
}
use vtessera.Store.Query.{filter_by, find_by, exists_by, update_by, order_by, min_by, collect}

pub data StoreError : Type 0 where
  not_found constraint agent_has_live_trades stale id_required : StoreError

pub record Acceptance : Type 0 where
  pub trade_id : String
  pub agent_id : String
  pub created_at : ℕ

pub record Db : Type 0 where
  pub agents : List Agent
  pub offers : List Offer
  pub trades : List Trade
  pub trade_acceptances : List Acceptance
  pub trade_events : List TradeEvent
  pub agent_limits : Dict AgentLimits
  pub settlement_requests : List SettlementRequest
  pub agent_retirements : Dict Retirement

abbrev pub str_lt : String → String → Bool
str_lt a b = is_lt (compare a b)

unfoldable pub get_agent : Db → String → Option Agent
get_agent db id = find_by (λ a. str_eq a.id id) db.agents

unfoldable pub get_offer : Db → String → Option Offer
get_offer db id = find_by (λ o. str_eq o.id id) db.offers

abbrev pub exists : {A : Type 0} → Option A → Bool
exists none = false
exists (some a) = true

-- `UPDATE offers SET status … WHERE id`; a row that is not there is ErrNotFound.
unfoldable pub set_offer_status : Db → String → OfferStatus → ℕ → Result StoreError Db
set_offer_status db id status at =
    if exists_by (λ (o : Offer). str_eq o.id id) db.offers
    then ok (record db {
      offers =
          update_by (λ (o : Offer). str_eq o.id id)
            (λ o. record o { status = status; updated_at = at }) db.offers;
    })
    else err not_found

-- ORDER BY created_at, agent_id
unfoldable pub acceptance_before : Acceptance → Acceptance → Bool
acceptance_before a b =
    ltb a.created_at b.created_at || (a.created_at == b.created_at && str_lt a.agent_id b.agent_id)

unfoldable pub acceptances_of : Db → String → List Acceptance
acceptances_of db trade_id = filter_by (λ a. str_eq a.trade_id trade_id) db.trade_acceptances

-- `tradeAcceptances`
unfoldable pub accepted_by : Db → String → List String
unfolding acceptances_of acceptance_before
accepted_by db trade_id =
    collect (λ a. a.agent_id) (order_by acceptance_before (acceptances_of db trade_id))

abbrev pub with_acceptances : Db → Trade → Trade
with_acceptances db t = record t { acceptances = accepted_by db t.id }

unfoldable pub get_trade : Db → String → Option Trade
get_trade db id = elim (find_by (λ t. str_eq t.id id) db.trades) [
  | none ↦ none
  | some t ↦ some (with_acceptances db t)
]

-- An empty key is stored as NULL, which no comparison finds.
abbrev pub has_key : String → Trade → Bool
has_key key t = str_eq t.idempotency_key key && not (str_eq key "")

unfoldable pub get_trade_by_idempotency_key : Db → String → Option Trade
get_trade_by_idempotency_key db key = elim (find_by (has_key key) db.trades) [
  | none ↦ none
  | some t ↦ some (with_acceptances db t)
]

-- The primary key, the unique index on the key, and the foreign keys refuse a row.
unfoldable pub create_trade : Db → Trade → String → Result StoreError Db
create_trade db t idempotency_key = do
  reject_if (exists_by (λ (u : Trade). str_eq u.id t.id) db.trades) constraint
  reject_if (exists_by (has_key idempotency_key) db.trades) constraint
  reject_if (not (exists (get_offer db t.offer_id))) constraint
  reject_if (not (exists (get_agent db t.buyer_agent_id))) constraint
  reject_if (not (exists (get_agent db t.seller_agent_id))) constraint
  ok (record db { trades = db.trades ++ (record t { idempotency_key = idempotency_key } ∷ []) })

abbrev pub is_acceptance : String → String → Acceptance → Bool
is_acceptance trade_id agent_id a = str_eq a.trade_id trade_id && str_eq a.agent_id agent_id

-- `INSERT OR IGNORE`: whether a row was inserted, and the tables.
unfoldable pub add_trade_acceptance : Db → String → String → ℕ → Bool × Db
add_trade_acceptance db trade_id agent_id at =
    if exists_by (is_acceptance trade_id agent_id) db.trade_acceptances then (false, db) else (
      true,
      record db {
        trade_acceptances =
            db.trade_acceptances
            ++ (record { trade_id = trade_id; agent_id = agent_id; created_at = at } ∷ []);
      },
    )

-- `SELECT MIN(created_at)`
unfoldable pub trade_acceptance : Db → String → Option ℕ
unfolding acceptances_of
trade_acceptance db trade_id = min_by (λ a. a.created_at) (acceptances_of db trade_id)

abbrev pub updated_before : Trade → Trade → Bool
updated_before t u = ltb t.updated_at u.updated_at

-- A limit that is not positive is 100.
abbrev pub batch : ℕ → ℕ
batch limit = if limit == 0 then 100 else limit

abbrev pub accepted_by_time : Db → ℕ → Trade → Bool
accepted_by_time db deadline t =
    state_eq t.state TradeState.accepted
    && elim (trade_acceptance db t.id) [ none ↦ false | some at ↦ leb at deadline ]

unfoldable pub accepted_before : Db → ℕ → ℕ → List Trade
accepted_before db deadline limit = collect (with_acceptances db) (
    take (batch limit)
      (order_by updated_before (filter_by (accepted_by_time db deadline) db.trades)))

abbrev pub is_unanswered : TradeState → Bool
is_unanswered s = state_eq s TradeState.proposed || state_eq s TradeState.negotiating

unfoldable pub open_trades_before : Db → ℕ → ℕ → List Trade
open_trades_before db cutoff limit = collect (with_acceptances db) (
    take (batch limit) (
      order_by updated_before
        (filter_by (λ t. is_unanswered t.state && leb t.updated_at cutoff) db.trades)))

-- `UPDATE … WHERE id = ? AND state = ?`: whether a row changed, and the tables.
abbrev pub is_in_state : String → TradeState → Trade → Bool
is_in_state id from t = str_eq t.id id && state_eq t.state from

unfoldable pub set_trade_state : Db → String → TradeState → TradeState → ℕ → Bool × Db
set_trade_state db id from to at = (
  exists_by (is_in_state id from) db.trades,
  record db {
    trades =
        update_by (is_in_state id from) (λ t. record t { state = to; updated_at = at }) db.trades;
  },
)

unfoldable pub append_trade_event : Db → TradeEvent → Db
append_trade_event db e = record db { trade_events = db.trade_events ++ (e ∷ []) }

unfoldable pub list_trade_events : Db → String → List TradeEvent
list_trade_events db trade_id = filter_by (λ e. str_eq e.trade_id trade_id) db.trade_events

-- A stored cap that no longer parses makes the row unreadable; so does a row that is not there.
unfoldable pub get_agent_limits : Db → String → Option AgentLimits
get_agent_limits db agent_id = elim (lookup agent_id db.agent_limits) [
  | none ↦ none
  | some l ↦ elim (parse l.per_trade_usd.value) [
    | err e ↦ none
    | ok t ↦ elim (parse l.per_day_usd.value) [ err e ↦ none | ok d ↦ some l ]
  ]
]

unfoldable pub set_agent_limits : Db → AgentLimits → Db
set_agent_limits db l = record db { agent_limits = insert l.agent_id l db.agent_limits }

-- `LiveSettlementRequest`, of which the caller reads only whether there is one.
unfoldable pub has_live_request : Db → String → ℕ → Bool
has_live_request db trade_id now =
    exists_by
      (λ (r : SettlementRequest).
        str_eq r.trade_id trade_id && is_issued r.status && ltb now r.expires_at)
      db.settlement_requests
