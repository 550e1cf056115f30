-- ===== src/Ledger.antt =====
-- internal/ledger/ledger.go with internal/store/ledger.go: the hash-chained log of completed trades
-- and the receipts signed for them. The entries are held newest first. What other packages compute,
-- the digests of an entry and of a payload, the JSON text, the signature and the fresh identifier,
-- is the record `Deps`. Between the read of the head and the write that depends on it another
-- writer may append: `others n` is what the others do before the write of the attempt that has `n`
-- more to come.
pub mod Chain
pub mod Issue
mod Tests
use vtessera.Common.{
  ℕ, zero, suc, ◌+◌, Bool, true, false, not, ◌||◌, Option, none, some, List, [], ◌∷◌, if◌then◌else◌,
  String, str_eq, Result, ok, err, ◌>>=◌, ◌>>◌, reject_if,
}
use vtessera.Bytes.{Bytes}
use vtessera.Money.{string}
use vtessera.Domain.{Trade, TradeState, SettlementMode, Receipt}
use vtessera.Store.Query.{exists_by, find_by}
use vtessera.Trade.LedgerApi.{LedgerError, is_completed, not_settled, already_issued, failed}

-- `domain.GenesisHash`
abbrev pub genesis_hash : String
genesis_hash = "0000000000000000000000000000000000000000000000000000000000000000"

pub record LedgerEntry : Type 0 where
  pub seq : ℕ
  pub trade_id : String
  pub payload : String
  pub payload_hash : String
  pub prev_hash : String
  pub hash : String
  pub created_at : ℕ

pub record LedgerAppend : Type 0 where
  pub trade_id : String
  pub payload : String
  pub payload_hash : String
  pub prev_hash : String
  pub created_at : ℕ

pub record LedgerState : Type 0 where
  pub entries : List LedgerEntry
  pub receipts : List Receipt

pub record TradeRecord : Type 0 where
  pub trade_id : String
  pub offer_id : String
  pub buyer : String
  pub seller : String
  pub description : String
  pub amount : Bytes
  pub mint : String
  pub mode : SettlementMode
  pub state : TradeState
  pub recorded_at : ℕ

pub record TesseraClaims : Type 0 where
  pub id : String
  pub subject : String
  pub issued_at : ℕ
  pub trade : TradeRecord
  pub mode : SettlementMode
  pub signature : String
  pub ledger_sequence : ℕ
  pub ledger_entry_hash : String
  pub cluster : String

pub record Deps : Type 0 where
  pub entry_hash : ℕ → String → String → String
  pub payload_hash : String → String
  pub marshal : TradeRecord → String
  pub sign : TesseraClaims → Option String
  pub new_id : TesseraClaims → String

-- A conflict with the head, or with the unique index on the trade.
pub data AppendError : Type 0 where
  stale constraint : AppendError

-- What a new entry follows: the hash and the number of the head, or the start of the chain.
abbrev pub head_hash : List LedgerEntry → String
head_hash [] = genesis_hash
head_hash (e ∷ es) = e.hash

abbrev pub next_seq : List LedgerEntry → ℕ
next_seq [] = 1
next_seq (e ∷ es) = e.seq + 1

abbrev pub entry_of : Deps → List LedgerEntry → LedgerAppend → LedgerEntry
entry_of deps entries a = record {
  seq = next_seq entries;
  trade_id = a.trade_id;
  payload = a.payload;
  payload_hash = a.payload_hash;
  prev_hash = head_hash entries;
  hash = deps.entry_hash (next_seq entries) (head_hash entries) a.payload_hash;
  created_at = a.created_at;
}

-- `AppendLedgerEntry`: one transaction.
unfoldable pub append_ledger_entry :
    Deps → LedgerState → LedgerAppend → Result AppendError (LedgerEntry × LedgerState)
append_ledger_entry deps s a = do
  reject_if (not (str_eq (head_hash s.entries) a.prev_hash)) stale
  reject_if (exists_by (λ (e : LedgerEntry). str_eq e.trade_id a.trade_id) s.entries) constraint
  ok (entry_of deps s.entries a, record s { entries = entry_of deps s.entries a ∷ s.entries })

abbrev pub is_stale : AppendError → Bool
is_stale stale = true
is_stale constraint = false

-- `append`, with the attempts that are left: the head is read, the others write, then the entry is
-- written if the head is still the one that was read.
unfoldable pub append :
    Deps
    → (ℕ → LedgerState → LedgerState)
    → ℕ
    → LedgerAppend
    → LedgerState
    → Result AppendError LedgerEntry × LedgerState
append deps others zero a s = (err stale, s)
append deps others (suc n) a s =
    let now = others n s in
    let retried = append deps others n a now in
    elim (append_ledger_entry deps now (record a { prev_hash = head_hash s.entries })) [
      | ok (e, after) ↦ (ok e, after)
      | err x ↦ if is_stale x then retried else (err x, now)
    ]

abbrev pub append_attempts : ℕ
append_attempts = 3

unfoldable pub trade_record : Trade → ℕ → TradeRecord
trade_record t at = record {
  trade_id = t.id;
  offer_id = t.offer_id;
  buyer = t.buyer_agent_id;
  seller = t.seller_agent_id;
  description = t.description;
  amount = string t.amount;
  mint = t.mint;
  mode = t.settlement_mode;
  state = t.state;
  recorded_at = at;
}

abbrev pub append_of : Deps → Trade → ℕ → LedgerAppend
append_of deps t at = record {
  trade_id = t.id;
  payload = deps.marshal (trade_record t at);
  payload_hash = deps.payload_hash (deps.marshal (trade_record t at));
  prev_hash = "";
  created_at = at;
}

-- `GetReceiptByTrade`
unfoldable pub receipt_of : String → LedgerState → Option Receipt
receipt_of trade_id s = find_by (λ r. str_eq r.trade_id trade_id) s.receipts

abbrev pub claims_of : Deps → Trade → String → String → ℕ → LedgerEntry → TesseraClaims
claims_of deps t signature cluster at e = record {
  id = "";
  subject = t.id;
  issued_at = at;
  trade = trade_record t at;
  mode = t.settlement_mode;
  signature = signature;
  ledger_sequence = e.seq;
  ledger_entry_hash = e.hash;
  cluster = cluster;
}

abbrev pub receipt_for : Deps → Trade → ℕ → TesseraClaims → String → Receipt
receipt_for deps t at claims jws = record {
  id = deps.new_id claims;
  trade_id = t.id;
  jws = jws;
  issued_at = at;
}

-- `SaveReceipt`: the identifier and the trade are unique.
unfoldable pub save_receipt : Receipt → LedgerState → Result LedgerError Receipt × LedgerState
save_receipt r s =
    if exists_by (λ (q : Receipt). str_eq q.id r.id || str_eq q.trade_id r.trade_id) s.receipts
    then (err failed, s)
    else (ok r, record s { receipts = r ∷ s.receipts })

-- The end of `Record`: the claims are signed and the receipt is saved.
unfoldable pub issue_receipt :
    Deps → Trade → ℕ → TesseraClaims → LedgerState → Result LedgerError Receipt × LedgerState
unfolding save_receipt
issue_receipt deps t at claims s = elim (deps.sign (record claims { id = deps.new_id claims })) [
  | none ↦ (err failed, s)
  | some jws ↦ save_receipt (receipt_for deps t at claims jws) s
]

-- `Record`, for a completed trade that has no receipt.
unfoldable pub record_new :
    Deps
    → (ℕ → LedgerState → LedgerState)
    → Trade
    → String
    → String
    → ℕ
    → LedgerState
    → Result LedgerError Receipt × LedgerState
unfolding append issue_receipt
record_new deps others t signature cluster at s =
    let (r, after) = append deps others append_attempts (append_of deps t at) s in
    elim r [
      | err x ↦ (err failed, after)
      | ok e ↦ issue_receipt deps t at (claims_of deps t signature cluster at e) after
    ]

unfoldable pub record_trade :
    Deps
    → (ℕ → LedgerState → LedgerState)
    → Trade
    → String
    → String
    → ℕ
    → LedgerState
    → Result LedgerError Receipt × LedgerState
unfolding record_new
record_trade deps others t signature cluster at s =
    if not (is_completed t.state) then (err not_settled, s) else elim (receipt_of t.id s) [
      | some r ↦ (err already_issued, s)
      | none ↦ record_new deps others t signature cluster at s
    ]
