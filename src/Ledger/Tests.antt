-- ===== src/Ledger/Tests.antt =====
-- The ledger of internal/ledger at a concrete log.
use vtessera.Common.{◌≡◌, refl, some, [], ◌∷◌, ok, err}
use vtessera.Money.{no_amount}
use vtessera.Domain.{Trade, TradeState, Receipt, offchain}
use vtessera.Store.Query.{exists_by, find_by}
use vtessera.Trade.LedgerApi.{failed}
use vtessera.Ledger.{
  Deps, LedgerEntry, LedgerAppend, LedgerState, append, record_trade, genesis_hash, receipt_of,
}
use vtessera.Ledger.Chain.{IsChained, append-IsChained}
use vtessera.Ledger.Issue.{alone, IsEntryFor, record_trade-stranded, record_trade-issues}

-- Digests and signatures that name what they are made from.
abbrev deps : Deps
deps = record {
  entry_hash = λ seq prev payload. payload;
  payload_hash = λ payload. payload;
  marshal = λ r. r.trade_id;
  sign = λ claims. some claims.subject;
  new_id = λ claims. claims.subject;
}

abbrev recorded : Trade
recorded = record {
  id = "t1";
  offer_id = "offer";
  buyer_agent_id = "buyer";
  seller_agent_id = "seller";
  description = "work";
  amount = no_amount;
  mint = "usdc";
  settlement_mode = offchain;
  state = TradeState.recorded;
  idempotency_key = "";
  created_at = 0;
  updated_at = 0;
  acceptances = [];
}

abbrev first_entry : LedgerEntry
first_entry = record {
  seq = 1;
  trade_id = "t1";
  payload = "t1";
  payload_hash = "t1";
  prev_hash = genesis_hash;
  hash = "t1";
  created_at = 5;
}

abbrev empty : LedgerState
empty = record { entries = []; receipts = [] }

-- The entry was written, the receipt was not.
abbrev stranded : LedgerState
stranded = record { entries = first_entry ∷ []; receipts = [] }

abbrev another : LedgerAppend
another = record {
  trade_id = "t2";
  payload = "t2";
  payload_hash = "t2";
  prev_hash = "";
  created_at = 6;
}

stranded-IsChained : IsChained deps stranded.entries
unfolding exists_by
stranded-IsChained = IsChained.link refl refl refl refl IsChained.genesis

append-IsChained_example : IsChained deps (append deps alone 3 another stranded).1.entries
append-IsChained_example =
    append-IsChained deps alone 3 another stranded (λ n t c. c) stranded-IsChained

record_trade-stranded_example :
    record_trade deps alone recorded "" "" 9 stranded ≡ (err failed, stranded)
unfolding receipt_of find_by exists_by
record_trade-stranded_example = record_trade-stranded deps recorded "" "" 9 stranded refl refl refl

record_trade-issues_example :
    (e : LedgerEntry) × (r : Receipt) × (record_trade deps alone recorded "" "" 9 empty
      ≡ (ok r, record { entries = e ∷ []; receipts = r ∷ [] }))
    × IsEntryFor deps recorded 9 empty e
    × (r.trade_id ≡ "t1")
unfolding receipt_of find_by exists_by
record_trade-issues_example =
    record_trade-issues deps recorded "" "" 9 empty refl refl refl (λ c. (c.subject, refl))
      (λ c. refl)
