-- ===== src/Trade/Tests/Settling.antt =====
-- The theorems on settlement of internal/trade at a small market with one pending trade.
use vtessera.Common.{
  ℕ, ◌+◌, ◌*◌, ◌^◌, ◌-◌, ◌≤◌, ◌≡◌, refl, min, true, false, Option, none, some, [], ◌∷◌, Dict,
  lookup, length, if◌then◌else◌, ◌==◌, String, str_eq, ok, err, arith, inl, inr, Bool-cases, pos,
}
use vtessera.Bytes.{Bytes}
use vtessera.Cluster.{devnet, mainnet_beta, cluster_eq, genesis_pin}
use vtessera.Domain.{
  Trade, TradeState, Receipt, SettlementRequest, SettlementStatus, onchain, party, mode_eq,
}
use vtessera.Tokens.{Registry, Token}
use vtessera.Settlement.{Transaction, Terms, verify, mismatch}
use vtessera.Settlement.Sample.{buyer_key, seller_key, fee_policy, small_library, transaction_for}
use vtessera.Store.{get_trade, get_agent}
use vtessera.Store.Settlement.{
  trades_in_state, list_settlement_requests, get_settlement_request, is_open_for,
}
use vtessera.Store.Query.{find_by, order_by, filter_by, insert_by}
use vtessera.Store.Settlement.Open.{OneOpen}
use vtessera.Trade.Monad.{
  Service, SettlementDeps, ConfirmPolicy, Fetched, landed, absent, unreachable, World,
  cluster_mismatch,
}
use vtessera.Trade.Service.{settlement_deps}
use vtessera.Trade.Service.Rows.{state_of}
use vtessera.Trade.Confirm.{await_transaction, attempts, delay_for}
use vtessera.Trade.Confirm.Backoff.{delay_for-exact}
use vtessera.Trade.Confirm.Retry.{Ends, await_transaction-Ends}
use vtessera.Trade.Settle.{
  terms_of, check_request_cluster, build_settlement, confirm_settlement, confirm_pending,
  settle_fetched,
}
use vtessera.Trade.Settle.Confirmed.{IsOnChain, confirm_settlement-settles}
use vtessera.Trade.Settle.Refused.{settle_fetched-mismatch, confirm_pending-foreign}
use vtessera.Trade.Reconcile.{
  ReconcileStats, settled, no_stats, reconcile_outstanding, reconcile_trade, batch_size,
  latest_signed,
}
use vtessera.Trade.Reconcile.Passes.{AddsUp, reconcile_outstanding-bounded}
use vtessera.Trade.Reconcile.Conclusions.{Concludes, reconcile_trade-Concludes}
use vtessera.Trade.Requests.{Steps-OneOpen}
use vtessera.Trade.Steps.{Step, Steps}
use vtessera.Trade.Tests.{memory_ledger, service, market, one_dollar}
use vtessera.Trade.Tests.Runs.{trade_in}

abbrev usdc : Token
usdc = record {
  address = "usdc";
  symbol = "USDC";
  decimals = pos 6;
  enabled = true;
  cluster = some devnet;
  mint_authority = "";
  freeze_authority = "";
}

abbrev key_of : String → Option Bytes
key_of s =
    if str_eq s "buyer"
    then some buyer_key
    else if str_eq s "seller"
    then some seller_key
    else some (3 ∷ [])

-- A chain that shows the transaction of a signature at the second attempt.
abbrev slow_chain : ℕ → ℕ → String → Fetched
slow_chain now attempt sig =
    if attempt == 1 then absent else landed (some (transaction_for 1000000 (116 ∷ 49 ∷ []))) false

abbrev deps : SettlementDeps
deps = record {
  registry = record {
    cluster = devnet;
    by_mint = ("usdc", usdc) ∷ [];
    elsewhere = [];
    ordered = usdc ∷ [];
  };
  policy = fee_policy;
  build = λ now t. some (record {
    unsigned_tx = "tx";
    blockhash = "hash";
    last_valid = 5;
    buyer_ata = "a";
    seller_ata = "b";
    created_ata = false;
    expires_at = now + 90;
  });
  verify = verify small_library;
  transaction = slow_chain;
  cluster = devnet;
  genesis = none;
  mints = none;
  has_trade_list = true;
  confirm = record { attempts = 3; backoff = 500; max_delay = 800 };
  waits = λ now delay. true;
  public_key = key_of;
  key_text = λ k. "wallet";
  signature = λ s. if str_eq s "" then none else some s;
}

abbrev settling : Service
settling = record service { settlement = some deps }

-- With a reader of the endpoint's genesis hash, which the reconciler needs.
abbrev watched : Service
watched = record service {
  settlement = some (record deps { genesis = some (some (genesis_pin devnet)) });
}

abbrev onchain_trade : TradeState → Trade
onchain_trade s = record (trade_in s) { settlement_mode = onchain }

abbrev request : SettlementRequest
request = record {
  id = "r1";
  trade_id = "t1";
  unsigned_tx = "tx";
  blockhash = "hash";
  last_valid = 5;
  buyer_ata = "a";
  seller_ata = "b";
  created_ata = false;
  fee_lamports = 1000;
  fee_wallet = "wallet";
  status = SettlementStatus.issued;
  signature = "";
  cluster = some devnet;
  created_at = 20;
  updated_at = 20;
  expires_at = 110;
}

abbrev pending_market : World (Dict Receipt)
pending_market = record market {
  db = record market.db {
    trades = onchain_trade TradeState.settlement_pending ∷ [];
    settlement_requests = request ∷ [];
  };
}

abbrev foreign_market : World (Dict Receipt)
foreign_market = record pending_market {
  db = record pending_market.db {
    settlement_requests = record request { cluster = some mainnet_beta } ∷ [];
  };
}

abbrev settled_trade : Trade
settled_trade = record (onchain_trade TradeState.settled) { updated_at = 30 }

abbrev settled_receipt : Receipt
settled_receipt = record { id = "t1"; trade_id = "t1"; jws = "t1"; issued_at = 30 }

run_confirm :
    (confirm_settlement memory_ledger settling 30 "buyer" "t1" "sig" pending_market).0
    ≡ ok (settled_trade, settled_receipt)
unfolding confirm_settlement vtessera.Trade.Monad.◌>>=◌ vtessera.Trade.Service.party_trade get_trade
    vtessera.Store.Query.find_by party settlement_deps vtessera.Domain.state_eq
    vtessera.Store.Settlement.get_settlement_request vtessera.Store.Query.order_by
    vtessera.Store.Query.filter_by list_settlement_requests vtessera.Cluster.cluster_eq
    vtessera.Store.Settlement.set_settlement_signature vtessera.Store.Query.exists_by
    await_transaction vtessera.Settlement.new_terms vtessera.Money.is_zero vtessera.Bytes.cut
    vtessera.Bytes.from_digits vtessera.Bytes.parse_uint vtessera.Bytes.trim
    vtessera.Bytes.trim_left vtessera.Bytes.trim_right vtessera.Cluster.cluster_name
    vtessera.Cluster.verify_genesis lookup vtessera.Domain.trim_space vtessera.Money.base_units
    vtessera.Money.units_of_digits vtessera.Settlement.party_key vtessera.Store.Query.collect
    vtessera.Store.Query.insert_by vtessera.Store.Query.update_by
    vtessera.Store.Settlement.confirm_settlement_request
    vtessera.Store.Settlement.expire_settlement_requests vtessera.Store.Settlement.is_open_for
    vtessera.Store.acceptance_before vtessera.Store.acceptances_of vtessera.Store.accepted_by
    vtessera.Store.append_trade_event vtessera.Store.set_offer_status vtessera.Store.set_trade_state
    vtessera.Tokens.enabled attempts vtessera.Trade.Confirm.await delay_for
    vtessera.Trade.Confirm.double vtessera.Trade.Machine.can_transition vtessera.Trade.Monad.gets
    vtessera.Trade.Monad.lift vtessera.Trade.Monad.modify vtessera.Trade.Monad.or_throw
    vtessera.Trade.Monad.pure vtessera.Trade.Monad.throw vtessera.Trade.Monad.throw_if
    vtessera.Trade.Monad.write vtessera.Trade.Receipts.tessera_of
    vtessera.Trade.Service.append_event vtessera.Trade.Service.apply vtessera.Trade.Service.apply_as
    vtessera.Trade.Service.check_cluster vtessera.Trade.Service.move
    vtessera.Trade.Service.read_trade vtessera.Trade.Settle.check_request_cluster
    vtessera.Trade.Settle.conclude_settled vtessera.Trade.Settle.confirm_against
    vtessera.Trade.Settle.confirm_in confirm_pending vtessera.Trade.Settle.confirm_requests
    vtessera.Trade.Settle.expire_failed vtessera.Trade.Settle.has_request
    vtessera.Trade.Settle.issue_settled vtessera.Trade.Settle.note_signature
    vtessera.Trade.Settle.refuse vtessera.Trade.Settle.settle settle_fetched
    vtessera.Trade.Settle.settle_landed verify vtessera.Trade.Tests.memory_record
    vtessera.Settlement.check_payer vtessera.Settlement.compile
    vtessera.Settlement.expected_canonical vtessera.Settlement.expected_instructions
    vtessera.Settlement.transfer_of vtessera.Settlement.ata vtessera.Settlement.same_instructions
    vtessera.Settlement.uint8 vtessera.Settlement.memo vtessera.Bytes.utf8
run_confirm = refl

pending_found :
    get_trade pending_market.db "t1" ≡ some (onchain_trade TradeState.settlement_pending)
unfolding get_trade find_by vtessera.Store.accepted_by vtessera.Store.Query.collect order_by
    filter_by
pending_found = refl

confirm_settlement-settles_example :
    (party (onchain_trade TradeState.settlement_pending) "buyer" ≡ true)
    × (d : SettlementDeps) × (settlement_deps settling ≡ ok d)
    × (sig : String) × (d.signature "sig" ≡ some sig)
    × IsOnChain d 30 (onchain_trade TradeState.settlement_pending) sig
    × (memory_ledger.receipt "t1"
          (confirm_settlement memory_ledger settling 30 "buyer" "t1" "sig" pending_market).1.ledger
        ≡ some settled_receipt)
confirm_settlement-settles_example =
    confirm_settlement-settles memory_ledger settling 30 "buyer" "t1" "sig" pending_market
      (onchain_trade TradeState.settlement_pending) settled_trade settled_receipt pending_found refl
      run_confirm

pending-OneOpen : OneOpen pending_market.db
unfolding filter_by
pending-OneOpen id = elim (Bool-cases (is_open_for id request)) [
  | inl e ↦ rw e (omega arith)
  | inr e ↦ rw e (omega arith)
]

Steps-OneOpen_example :
    OneOpen (confirm_settlement memory_ledger settling 30 "buyer" "t1" "sig" pending_market).1.db
Steps-OneOpen_example =
    Steps-OneOpen memory_ledger settling pending_market
      (confirm_settlement memory_ledger settling 30 "buyer" "t1" "sig" pending_market).1
      (Steps.then_one Steps.none_yet (Step.confirms pending_market 30 "buyer" "t1" "sig"))
      pending-OneOpen

abbrev agreed_terms : Terms
agreed_terms = record {
  trade_id = "t1";
  amount = 1000000;
  decimals = pos 6;
  mint = 3 ∷ [];
  buyer = buyer_key;
  seller = seller_key;
  fee = fee_policy;
}

run_terms : terms_of deps (onchain_trade TradeState.settlement_pending) ≡ ok agreed_terms
unfolding vtessera.Settlement.new_terms vtessera.Domain.state_eq vtessera.Money.is_zero
    vtessera.Tokens.enabled lookup vtessera.Domain.trim_space vtessera.Money.base_units
    vtessera.Bytes.cut vtessera.Money.units_of_digits vtessera.Bytes.parse_uint
run_terms = refl

run_check : check_request_cluster devnet (request ∷ []) "r1" ≡ ok tt
unfolding check_request_cluster cluster_eq
run_check = refl

run_short :
    verify small_library agreed_terms (some (transaction_for 99 (116 ∷ 49 ∷ []))) ≡ err mismatch
unfolding verify vtessera.Settlement.check_payer vtessera.Settlement.compile
    vtessera.Settlement.expected_canonical vtessera.Settlement.expected_instructions
    vtessera.Settlement.transfer_of vtessera.Settlement.ata vtessera.Settlement.same_instructions
run_short = refl

-- A transaction that pays 99 base units.
settle_fetched-mismatch_example :
    let after =
      (settle_fetched memory_ledger deps 30
        (onchain_trade TradeState.settlement_pending)
        (request ∷ [])
        "r1"
        "sig"
        (some (transaction_for 99 (116 ∷ 49 ∷ [])), false)
        pending_market).1 in
    (state_of "t1" after.db.trades ≡ some TradeState.disputed) × (after.ledger ≡ [])
unfolding state_of
settle_fetched-mismatch_example =
    settle_fetched-mismatch memory_ledger deps 30 (onchain_trade TradeState.settlement_pending)
      (request ∷ []) "r1" "sig" (some (transaction_for 99 (116 ∷ 49 ∷ []))) agreed_terms
      pending_market refl refl run_check run_terms run_short

abbrev foreign_request : SettlementRequest
foreign_request = record request { cluster = some mainnet_beta }

confirm_pending-foreign_example :
    confirm_pending memory_ledger deps 30
      (onchain_trade TradeState.settlement_pending)
      "sig"
      foreign_market
    ≡ (err cluster_mismatch, foreign_market)
unfolding get_settlement_request list_settlement_requests find_by order_by filter_by insert_by
    cluster_eq
confirm_pending-foreign_example =
    confirm_pending-foreign memory_ledger deps 30 (onchain_trade TradeState.settlement_pending)
      "sig" foreign_request foreign_request foreign_market refl refl refl refl

abbrev signed_request : SettlementRequest
signed_request = record request { signature = "sig" }

abbrev signed_market : World (Dict Receipt)
signed_market = record pending_market {
  db = record pending_market.db { settlement_requests = signed_request ∷ [] };
}

-- A chain that has the transaction of every signature.
abbrev quick_deps : SettlementDeps
quick_deps = record deps {
  transaction = λ now attempt sig. landed (some (transaction_for 1000000 (116 ∷ 49 ∷ []))) false;
}

run_reconcile :
    (reconcile_trade memory_ledger quick_deps 30
      (onchain_trade TradeState.settlement_pending)
      signed_market).0
    ≡ ok settled
unfolding reconcile_trade vtessera.Trade.Monad.◌>>=◌ latest_signed list_settlement_requests order_by
    filter_by cluster_eq vtessera.Settlement.new_terms vtessera.Domain.state_eq
    vtessera.Money.is_zero vtessera.Tokens.enabled lookup vtessera.Domain.trim_space
    vtessera.Money.base_units vtessera.Bytes.cut vtessera.Money.units_of_digits
    vtessera.Bytes.parse_uint vtessera.Bytes.from_digits vtessera.Bytes.trim
    vtessera.Bytes.trim_left vtessera.Bytes.trim_right vtessera.Cluster.cluster_name
    vtessera.Settlement.party_key vtessera.Store.Query.collect vtessera.Store.Query.exists_by
    find_by insert_by vtessera.Store.Query.update_by
    vtessera.Store.Settlement.confirm_settlement_request
    vtessera.Store.Settlement.expire_settlement_requests is_open_for
    vtessera.Store.acceptance_before vtessera.Store.acceptances_of vtessera.Store.accepted_by
    vtessera.Store.append_trade_event get_trade vtessera.Store.set_offer_status
    vtessera.Store.set_trade_state vtessera.Trade.Machine.can_transition vtessera.Trade.Monad.gets
    vtessera.Trade.Monad.lift vtessera.Trade.Monad.modify vtessera.Trade.Monad.or_throw
    vtessera.Trade.Monad.pure vtessera.Trade.Monad.throw vtessera.Trade.Monad.write
    vtessera.Trade.Reconcile.caught vtessera.Trade.Reconcile.latest_request
    vtessera.Trade.Reconcile.outcome_of vtessera.Trade.Reconcile.reconcile_fetched
    vtessera.Trade.Reconcile.reconcile_lapsed vtessera.Trade.Reconcile.reconcile_signed
    vtessera.Trade.Reconcile.reconcile_unsigned vtessera.Trade.Reconcile.withdraw
    vtessera.Trade.Service.append_event vtessera.Trade.Service.apply vtessera.Trade.Service.apply_as
    vtessera.Trade.Service.move vtessera.Trade.Service.read_trade check_request_cluster
    vtessera.Trade.Settle.conclude_settled vtessera.Trade.Settle.confirm_requests
    vtessera.Trade.Settle.expire_failed vtessera.Trade.Settle.has_request
    vtessera.Trade.Settle.issue_settled vtessera.Trade.Settle.refuse vtessera.Trade.Settle.settle
    settle_fetched vtessera.Trade.Settle.settle_landed verify vtessera.Settlement.check_payer
    vtessera.Settlement.compile vtessera.Settlement.expected_canonical
    vtessera.Settlement.expected_instructions vtessera.Settlement.transfer_of
    vtessera.Settlement.ata vtessera.Settlement.same_instructions vtessera.Settlement.uint8
    vtessera.Settlement.memo vtessera.Bytes.utf8 vtessera.Trade.Tests.memory_record
run_reconcile = refl

reconcile_trade-Concludes_example :
    Concludes quick_deps 30
      (onchain_trade TradeState.settlement_pending)
      (list_settlement_requests signed_market.db "t1")
      settled
reconcile_trade-Concludes_example =
    reconcile_trade-Concludes memory_ledger quick_deps 30
      (onchain_trade TradeState.settlement_pending) signed_market settled run_reconcile

await_transaction-Ends_example : Ends deps 30 "sig" 1 (await_transaction deps 30 "sig")
await_transaction-Ends_example = await_transaction-Ends deps 30 "sig"

delay_for-exact_example :
    delay_for (record { attempts = 3; backoff = 500; max_delay = 800 }) 2
    ≡ min (500 * 2 ^ (2 - 1)) 800
delay_for-exact_example =
    delay_for-exact (record { attempts = 3; backoff = 500; max_delay = 800 }) 2 (omega arith)
      (omega arith) (omega arith) (omega arith)

abbrev one_pending : ReconcileStats
one_pending = record no_stats { examined = 1; pending = 1 }

run_outstanding :
    (reconcile_outstanding memory_ledger watched 30 50 signed_market).0 ≡ ok one_pending
unfolding reconcile_outstanding vtessera.Cluster.verify_genesis vtessera.Store.Query.collect
    order_by filter_by vtessera.Domain.state_eq vtessera.Trade.Monad.◌>>=◌ latest_signed
    list_settlement_requests cluster_eq
run_outstanding = refl

reconcile_outstanding-bounded_example :
    AddsUp one_pending
    × (one_pending.examined ≤ batch_size 50)
    × (one_pending.examined
        ≤ length (trades_in_state signed_market.db TradeState.settlement_pending))
reconcile_outstanding-bounded_example =
    reconcile_outstanding-bounded memory_ledger watched 30 50 signed_market one_pending
      run_outstanding
