-- ===== src/Store/Settlement.antt =====
-- internal/store/settlement.go: the requests for a settlement. The schema's index lets one issued
-- request stand for each trade.
pub mod Open
use vtessera.Common.{
  ℕ, Bool, true, false, not, ◌&&◌, ◌||◌, Option, none, some, List, [], ◌∷◌, ◌++◌, ltb, ◌==◌,
  if◌then◌else◌, String, str_eq, Result, ok, err, ◌>>=◌, ◌>>◌, reject_if,
}
use vtessera.Cluster.{Cluster, cluster_eq}
use vtessera.Domain.{Trade, TradeState, SettlementRequest, SettlementStatus, is_issued, state_eq}
use vtessera.Store.{
  Db, StoreError, constraint, stale, id_required, str_lt, exists, updated_before, with_acceptances,
}
use vtessera.Store.Query.{filter_by, find_by, exists_by, update_by, order_by, collect}

abbrev pub of_trade : String → SettlementRequest → Bool
of_trade trade_id r = str_eq r.trade_id trade_id

-- `trade_id = ? AND status = 'issued'`
unfoldable pub is_open_for : String → SettlementRequest → Bool
is_open_for trade_id r = of_trade trade_id r && is_issued r.status

abbrev pub retire : ℕ → SettlementRequest → SettlementRequest
retire at r = record r { status = SettlementStatus.expired; updated_at = at }

abbrev pub with_requests : Db → List SettlementRequest → Db
with_requests db requests = record db { settlement_requests = requests }

unfoldable pub expire_settlement_requests : Db → String → ℕ → Db
expire_settlement_requests db trade_id at =
    with_requests db (update_by (is_open_for trade_id) (retire at) db.settlement_requests)

-- The row is refused by the primary key, the index of the issued requests and the foreign key.
unfoldable pub insert_request : Db → SettlementRequest → Result StoreError Db
insert_request db r = do
  reject_if (exists_by (λ (q : SettlementRequest). str_eq q.id r.id) db.settlement_requests)
      constraint
  reject_if (is_issued r.status && exists_by (is_open_for r.trade_id) db.settlement_requests)
      constraint
  reject_if (not (exists_by (λ (t : Trade). str_eq t.id r.trade_id) db.trades)) constraint
  ok (with_requests db (db.settlement_requests ++ (r ∷ [])))

unfoldable pub create_settlement_request : Db → SettlementRequest → Result StoreError Db
unfolding expire_settlement_requests insert_request
create_settlement_request db r = do
  reject_if (str_eq r.id "") id_required
  insert_request (expire_settlement_requests db r.trade_id r.created_at) r

-- created_at, id
abbrev created_before : SettlementRequest → SettlementRequest → Bool
created_before q r =
    ltb q.created_at r.created_at || (q.created_at == r.created_at && str_lt q.id r.id)

-- (status = 'issued') DESC, created_at DESC, id DESC
abbrev current_before : SettlementRequest → SettlementRequest → Bool
current_before q r =
    if is_issued q.status
    then not (is_issued r.status) || created_before r q
    else not (is_issued r.status) && created_before r q

abbrev pub first : {A : Type 0} → List A → Option A
first [] = none
first (x ∷ xs) = some x

unfoldable pub get_settlement_request : Db → String → Option SettlementRequest
get_settlement_request db trade_id =
    first (order_by current_before (filter_by (of_trade trade_id) db.settlement_requests))

unfoldable pub list_settlement_requests : Db → String → List SettlementRequest
list_settlement_requests db trade_id =
    order_by created_before (filter_by (of_trade trade_id) db.settlement_requests)

-- An UPDATE that has to change a row.
abbrev pub update_one :
    Db → (SettlementRequest → Bool) → (SettlementRequest → SettlementRequest) → Result StoreError Db
update_one db p f =
    if exists_by p db.settlement_requests
    then ok (with_requests db (update_by p f db.settlement_requests))
    else err stale

abbrev pub may_sign : String → String → SettlementRequest → Bool
may_sign id signature r =
    str_eq r.id id && is_issued r.status && (str_eq r.signature "" || str_eq r.signature signature)

unfoldable pub set_settlement_signature : Db → String → String → ℕ → Result StoreError Db
set_settlement_signature db id signature at =
    update_one db (may_sign id signature) (λ r. record r { signature = signature; updated_at = at })

abbrev pub is_issued_with : String → SettlementRequest → Bool
is_issued_with id r = str_eq r.id id && is_issued r.status

unfoldable pub confirm_settlement_request : Db → String → String → ℕ → Result StoreError Db
confirm_settlement_request db id signature at =
    update_one db (is_issued_with id) (λ r. record r {
      status = SettlementStatus.confirmed;
      signature = signature;
      updated_at = at;
    })

-- `cluster <> ?`, where a request of no cluster has the sentinel.
abbrev pub is_foreign : Cluster → SettlementRequest → Bool
is_foreign running r = elim r.cluster [ none ↦ true | some c ↦ not (cluster_eq c running) ]

unfoldable pub expire_for_cluster : Db → String → Cluster → ℕ → Db
expire_for_cluster db trade_id running at = with_requests db (
    update_by (λ r. is_open_for trade_id r && is_foreign running r) (retire at)
      db.settlement_requests)

-- ORDER BY updated_at, id
abbrev updated_first : Trade → Trade → Bool
updated_first t u = updated_before t u || (t.updated_at == u.updated_at && str_lt t.id u.id)

unfoldable pub trades_in_state : Db → TradeState → List Trade
trades_in_state db state =
    collect (with_acceptances db)
      (order_by updated_first (filter_by (λ t. state_eq t.state state) db.trades))
