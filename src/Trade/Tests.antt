-- ===== src/Trade/Tests.antt =====
-- A ledger in memory, a small market, and the theorems of internal/trade at them.
mod Runs
mod Calls
mod Sums
mod Raise
mod Settling
mod Interleaving
use vtessera.Common.{
  ℕ, ◌≡◌, refl, sym, ap, ◌∙◌, Bool, true, false, not, Option, none, some, List, [], ◌∷◌,
  if◌then◌else◌, String, str_eq, eq_iff, Dict, lookup, insert, lookup-insert, Result, ok, err,
  arith, inl, inr, pos, Option-cases, Bool-cases,
}
use vtessera.Money.{Amount, no_amount}
use vtessera.Limits.{Policy, Rate}
use vtessera.Domain.{
  Trade, TradeState, Receipt, Agent, Offer, active, ask, bid, offer_open, offchain, onchain,
}
use vtessera.Store.{Db}
use vtessera.Trade.LedgerApi.{LedgerApi, LedgerError, is_completed, not_settled, already_issued}
use vtessera.Trade.Monad.{Service, World}

abbrev receipt_for : Trade → ℕ → Receipt
receipt_for t at = record { id = t.id; trade_id = t.id; jws = t.id; issued_at = at }

abbrev memory_issue : Trade → ℕ → Dict Receipt → Result LedgerError Receipt × Dict Receipt
memory_issue t at s = elim (lookup t.id s) [
  | some r ↦ (err already_issued, s)
  | none ↦ (ok (receipt_for t at), insert t.id (receipt_for t at) s)
]

unfoldable memory_record :
    Trade → String → String → ℕ → Dict Receipt → Result LedgerError Receipt × Dict Receipt
memory_record t signature cluster at s =
    if is_completed t.state then memory_issue t at s else (err not_settled, s)

memory_keeps :
    (t : Trade) (signature cluster : String) (at : ℕ) (s : Dict Receipt) (r : Receipt)
    → (memory_record t signature cluster at s).0 ≡ ok r
    → lookup t.id (memory_record t signature cluster at s).1 ≡ some r
unfolding memory_record
memory_keeps t signature cluster at s r h = elim (Option-cases (lookup t.id s)) [
  | inr (q, e) ↦ absurd (ground arith)
  | inl e ↦ ground (arith, eq_iff t.id t.id, lookup-insert t.id t.id (receipt_for t at) s)
]

memory_keeps_others :
    (t : Trade) (signature cluster other : String) (at : ℕ) (s : Dict Receipt)
    → str_eq t.id other ≡ false
    → lookup other (memory_record t signature cluster at s).1 ≡ lookup other s
unfolding memory_record
memory_keeps_others t signature cluster other at s h = elim (Option-cases (lookup t.id s)) [
  | inr (q, e) ↦ ground arith
  | inl e ↦ ground (arith, lookup-insert t.id other (receipt_for t at) s)
]

memory_refuses_twice :
    (t : Trade) (signature cluster : String) (at : ℕ) (s : Dict Receipt) (r : Receipt)
    → is_completed t.state ≡ true
    → lookup t.id s ≡ some r
    → memory_record t signature cluster at s ≡ (err already_issued, s)
unfolding memory_record
memory_refuses_twice t signature cluster at s r h e = rw (h, memory_issue, e) refl

memory_refuses_open :
    (t : Trade) (signature cluster : String) (at : ℕ) (s : Dict Receipt)
    → is_completed t.state ≡ false
    → memory_record t signature cluster at s ≡ (err not_settled, s)
unfolding memory_record
memory_refuses_open t signature cluster at s h = rw (h, memory_record) refl

-- A ledger that keeps its receipts by trade.
abbrev memory_ledger : LedgerApi
memory_ledger = record {
  State = Dict Receipt;
  record_trade = memory_record;
  receipt = λ id s. lookup id s;
  refuses_open = memory_refuses_open;
  refuses_twice = memory_refuses_twice;
  keeps = memory_keeps;
  keeps_others = memory_keeps_others;
}

-- "1.00", "10.00" and "25.00"
abbrev one_dollar : Amount
one_dollar = record { value = b'1' ∷ b'.' ∷ b'0' ∷ b'0' ∷ [] }

abbrev ten_dollars : Amount
ten_dollars = record { value = b'1' ∷ b'0' ∷ b'.' ∷ b'0' ∷ b'0' ∷ [] }

abbrev policy : Policy
policy = record {
  per_trade = ten_dollars;
  per_day = ten_dollars;
  window = pos 100;
  ceiling_per_trade = no_amount;
  ceiling_per_day = no_amount;
  rates = ("usdc", record { decimals = 6; usd = one_dollar }) ∷ [];
  per_agent_overrides = none;
}

abbrev service : Service
service = record {
  limits = some policy;
  has_limits_store = true;
  accept_ttl = 50;
  open_ttl = 200;
  settlement = none;
}

abbrev agent : String → Agent
agent id = record { id = id; status = active; updated_at = 0 }

-- An offer of "seller" at one dollar.
abbrev offer : Offer
offer = record {
  id = "offer";
  agent_id = "seller";
  direction = ask;
  description = "work";
  capabilities = [];
  price_amount = one_dollar;
  price_mint = "usdc";
  settlement_modes = offchain ∷ [];
  status = offer_open;
  updated_at = 0;
}

abbrev market : World (Dict Receipt)
market = record {
  db = record {
    agents = agent "buyer" ∷ agent "seller" ∷ [];
    offers = offer ∷ [];
    trades = [];
    trade_acceptances = [];
    trade_events = [];
    agent_limits = [];
    settlement_requests = [];
    agent_retirements = [];
  };
  ledger = [];
}
