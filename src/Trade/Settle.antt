-- ===== src/Trade/Settle.antt =====
-- internal/trade/settlement.go, and `settleFetched` of internal/trade/reconcile.go: the request for
-- a transaction, and the verdict on one that landed. The clock is read once a call; the texts of
-- errors and the details of events are left out.
pub mod Writes
pub mod Verdict
pub mod Confirmed
pub mod Refused
use vtessera.Common.{
  ℕ, Bool, true, false, not, ◌&&◌, ◌||◌, Option, none, some, List, [], ◌∷◌, ltb, length,
  if◌then◌else◌, String, str_eq, Result, ok, err, map_err,
}
use vtessera.Cluster.{cluster_name}
use vtessera.Cluster.{Cluster, cluster_eq}
use vtessera.Domain.{
  Trade, TradeState, Receipt, SettlementMode, SettlementRequest, SettlementStatus, onchain, mode_eq,
  state_eq, offer_closed,
}
use vtessera.Store.{Db, set_offer_status}
use vtessera.Store.Settlement.{
  create_settlement_request, get_settlement_request, list_settlement_requests,
  set_settlement_signature, confirm_settlement_request, expire_settlement_requests,
}
use vtessera.Tokens.{enabled}
use vtessera.Settlement.{Transaction, Terms, VerifyError, new_terms, mismatch, underivable}
use vtessera.Trade.LedgerApi.{LedgerApi}
use vtessera.Trade.Monad.{
  TradeError, Service, SettlementDeps, Built, World, M, pure, throw, throw_if, gets, or_throw, lift,
  write, modify, ◌>>=◌, ◌>>◌, ledger, terms, verdict, illegal_state, mint_ungoverned,
  onchain_unavailable, not_buyer, not_onchain, settlement_failed, invalid_signature,
  cluster_mismatch, build_failed, mint_verified, mint_unverified, mint_unreachable,
}
use vtessera.Trade.Spend.{check_spend}
use vtessera.Trade.Service.{settlement_deps, party_trade, apply}
use vtessera.Trade.Receipts.{tessera_of}
use vtessera.Trade.Confirm.{await_transaction}

-- `verifyMint`
unfoldable pub verify_mint : SettlementDeps → ℕ → String → Result TradeError (Unit {0})
verify_mint d now address = elim d.mints [
  | none ↦ ok tt
  | some verify ↦ elim (enabled d.registry address) [
    | err e ↦ err mint_ungoverned
    | ok mint ↦ elim (verify now mint) [
      | mint_verified ↦ ok tt
      | mint_unverified ↦ err mint_ungoverned
      | mint_unreachable ↦ err onchain_unavailable
    ]
  ]
]

abbrev pub terms_of : SettlementDeps → Trade → Result TradeError Terms
terms_of d tr = map_err terms (new_terms d.public_key tr d.registry d.policy)

-- `checkRequestCluster`, for a service that has a cluster.
unfoldable pub check_request_cluster :
    Cluster → List SettlementRequest → String → Result TradeError (Unit {0})
check_request_cluster want [] current_id = ok tt
check_request_cluster want (r ∷ rs) current_id =
    let rest = check_request_cluster want rs current_id in
    if str_eq current_id ""
    then ok tt
    else if not (str_eq r.id current_id)
    then rest
    else elim r.cluster [
      | none ↦ err cluster_mismatch
      | some c ↦ if cluster_eq c want then ok tt else err cluster_mismatch
    ]

abbrev pub request_of : ℕ → String → SettlementDeps → Trade → Built → SettlementRequest
request_of now id d tr built = record {
  id = id;
  trade_id = tr.id;
  unsigned_tx = built.unsigned_tx;
  blockhash = built.blockhash;
  last_valid = built.last_valid;
  buyer_ata = built.buyer_ata;
  seller_ata = built.seller_ata;
  created_ata = built.created_ata;
  fee_lamports = d.policy.lamports;
  fee_wallet = d.key_text d.policy.wallet;
  status = SettlementStatus.issued;
  signature = "";
  cluster = some d.cluster;
  created_at = now;
  updated_at = now;
  expires_at = built.expires_at;
}

abbrev pub may_build : TradeState → Bool
may_build s = state_eq s TradeState.accepted || state_eq s TradeState.settlement_pending

-- The loop of `confirmRequests`: is the current request among the trade's?
unfoldable pub has_request : List SettlementRequest → String → Bool
has_request [] current_id = false
has_request (r ∷ rs) current_id = str_eq r.id current_id || has_request rs current_id

module _ {L : Type 0} where
  unfoldable pub settlement_request_for : Service → String → String → M L SettlementRequest
  settlement_request_for svc actor trade_id = do
    party_trade actor trade_id
    lift (settlement_deps svc)
    found ← gets (λ db. get_settlement_request db trade_id)
    or_throw found TradeError.not_found

  -- The end of `BuildSettlement`: the row, then the state of an accepted trade.
  unfoldable pub issue_request :
      ℕ → String → String → SettlementDeps → Trade → Built → M L SettlementRequest
  issue_request now id actor d tr built = do
    write (λ db. create_settlement_request db (request_of now id d tr built))
    if state_eq tr.state TradeState.accepted
        then (apply now tr actor TradeState.settlement_pending >>= λ t.
            pure (request_of now id d tr built))
        else pure (request_of now id d tr built)

  unfoldable pub build_settlement : Service → ℕ → String → String → String → M L SettlementRequest
  unfolding issue_request
  build_settlement svc now id actor trade_id = do
    tr ← party_trade actor trade_id
    d ← lift (settlement_deps svc)
    throw_if (not (str_eq tr.buyer_agent_id actor)) not_buyer
    throw_if (not (mode_eq tr.settlement_mode onchain)) not_onchain
    throw_if (not (may_build tr.state)) illegal_state
    allowed ← gets (λ db. check_spend svc db now tr.buyer_agent_id tr.amount tr.mint tr.id)
    lift allowed
    t ← lift (terms_of d tr)
    lift (verify_mint d now tr.mint)
    built ← or_throw (d.build now t) build_failed
    issue_request now id actor d tr built

  -- `requests[0].TradeID`, which is the trade's.
  unfoldable pub confirm_requests :
      ℕ → String → List SettlementRequest → String → String → M L (Unit {0})
  unfolding has_request
  confirm_requests now trade_id requests current_id sig =
      if str_eq current_id "" then pure tt else do
        write (λ db. confirm_settlement_request db current_id sig now)
        if has_request requests current_id && ltb 1 (length requests)
            then modify (λ db. (tt, expire_settlement_requests db trade_id now))
            else pure tt

  -- Any mismatch is a dispute, and the error is the caller's.
  unfoldable pub refuse : ℕ → Trade → VerifyError → M L (Trade × Receipt)
  refuse now tr underivable = throw (verdict underivable)
  refuse now tr mismatch = do
    apply now tr tr.buyer_agent_id TradeState.disputed
    throw (verdict mismatch)

  -- A transaction that failed on the chain has spent its blockhash.
  unfoldable pub expire_failed : ℕ → Trade → M L (Trade × Receipt)
  expire_failed now tr = do
    modify (λ db. (tt, expire_settlement_requests db tr.id now))
    throw settlement_failed

  -- What `ConfirmSettlement` records before it asks the chain; the result is the current request.
  unfoldable pub note_signature :
      SettlementDeps → ℕ → List SettlementRequest → String → Option SettlementRequest → M L String
  unfolding check_request_cluster
  note_signature d now requests sig none = pure ""
  note_signature d now requests sig (some r) = do
    lift (check_request_cluster d.cluster requests r.id)
    write (λ db. set_settlement_signature db r.id sig now)
    pure r.id

module _ (api : LedgerApi) where
  open api use {State, record_trade}

  -- `ledger.Record`, of a settlement.
  unfoldable pub issue_settled : SettlementDeps → ℕ → Trade → String → M State Receipt
  issue_settled d now tr sig w =
      let (r, s) = record_trade tr sig (cluster_name d.cluster) now w.ledger in
      elim r [
        | ok receipt ↦ (ok receipt, record w { ledger = s })
        | err e ↦ (err (ledger e), record w { ledger = s })
      ]

  -- The end of `settleFetched`: the receipt, then the offer.
  unfoldable pub conclude_settled : SettlementDeps → ℕ → Trade → String → M State (Trade × Receipt)
  unfolding issue_settled
  conclude_settled d now settled sig = do
    r ← issue_settled d now settled sig
    write (λ db. set_offer_status db settled.offer_id offer_closed now)
    pure (settled, r)

  unfoldable pub settle :
      SettlementDeps
      → ℕ
      → Trade
      → List SettlementRequest
      → String
      → String
      → M State (Trade × Receipt)
  unfolding confirm_requests conclude_settled
  settle d now tr requests current_id sig = do
    confirm_requests now tr.id requests current_id sig
    settled ← apply now tr tr.buyer_agent_id TradeState.settled
    conclude_settled d now settled sig

  unfoldable pub settle_landed :
      SettlementDeps
      → ℕ
      → Trade
      → List SettlementRequest
      → String
      → String
      → Option Transaction
      → M State (Trade × Receipt)
  unfolding settle refuse
  settle_landed d now tr requests current_id sig tx = do
    t ← lift (terms_of d tr)
    elim (d.verify t tx) [
      | err e ↦ refuse now tr e
      | ok u ↦ settle d now tr requests current_id sig
    ]

  -- `settleFetched`
  unfoldable pub settle_fetched :
      SettlementDeps
      → ℕ
      → Trade
      → List SettlementRequest
      → String
      → String
      → Option Transaction × Bool
      → M State (Trade × Receipt)
  unfolding settle_landed check_request_cluster expire_failed
  settle_fetched d now tr requests current_id sig (tx, failed) = do
    lift (check_request_cluster d.cluster requests current_id)
    if failed then expire_failed now tr else settle_landed d now tr requests current_id sig tx

  unfoldable pub confirm_against :
      SettlementDeps
      → ℕ
      → Trade
      → String
      → List SettlementRequest
      → Option SettlementRequest
      → M State (Trade × Receipt)
  unfolding note_signature settle_fetched
  confirm_against d now tr sig requests current = do
    current_id ← note_signature d now requests sig current
    fetched ← lift (await_transaction d now sig)
    settle_fetched d now tr requests current_id sig fetched

  -- `ConfirmSettlement`, of a trade that is pending.
  unfoldable pub confirm_pending : SettlementDeps → ℕ → Trade → String → M State (Trade × Receipt)
  unfolding confirm_against
  confirm_pending d now tr sig = do
    requests ← gets (λ db. list_settlement_requests db tr.id)
    current ← gets (λ db. get_settlement_request db tr.id)
    confirm_against d now tr sig requests current

  -- `ConfirmSettlement`, by the state of the trade.
  unfoldable pub confirm_in :
      SettlementDeps → ℕ → Trade → String → String → M State (Trade × Receipt)
  unfolding confirm_pending tessera_of
  confirm_in d now tr trade_id sig =
      if state_eq tr.state TradeState.settled || state_eq tr.state TradeState.recorded
      then (tessera_of api trade_id >>= λ r. pure (tr, r))
      else if state_eq tr.state TradeState.settlement_pending
      then confirm_pending d now tr sig
      else throw illegal_state

  unfoldable pub confirm_settlement :
      Service → ℕ → String → String → String → M State (Trade × Receipt)
  unfolding confirm_in
  confirm_settlement svc now actor trade_id signature = do
    tr ← party_trade actor trade_id
    d ← lift (settlement_deps svc)
    throw_if (not (mode_eq tr.settlement_mode onchain)) not_onchain
    sig ← or_throw (d.signature signature) invalid_signature
    confirm_in d now tr trade_id sig
