-- ===== src/Trade/LedgerApi.antt =====
-- What the trade service needs of its ledger: the interface `Ledger` of internal/trade/trade.go,
-- with the promises that the service relies on.
use vtessera.Common.{ℕ, ◌≡◌, Bool, true, false, Option, some, String, str_eq, Result, ok, err}
use vtessera.Domain.{Trade, TradeState, Receipt}

-- The errors of `Record`; `failed` is one of its store or of its signer.
pub data LedgerError : Type 0 where
  not_settled already_issued failed : LedgerError

-- A trade that a tessera may be issued for.
abbrev pub is_completed : TradeState → Bool
is_completed TradeState.recorded = true
is_completed TradeState.settled = true
is_completed _ = false

pub record LedgerApi : Type 1 where
  pub State : Type 0
  -- `Record`: the trade, the Solana signature, the cluster and the time.
  pub record_trade : Trade → String → String → ℕ → State → Result LedgerError Receipt × State
  -- `Receipt`, `none` for ErrNotFound.
  pub receipt : String → State → Option Receipt
  -- A trade that is not completed is refused, and nothing is written.
  pub refuses_open :
      (t : Trade) (signature cluster : String) (at : ℕ) (s : State)
      → is_completed t.state ≡ false
      → record_trade t signature cluster at s ≡ (err not_settled, s)
  -- So is a trade that has its receipt.
  pub refuses_twice :
      (t : Trade) (signature cluster : String) (at : ℕ) (s : State) (r : Receipt)
      → is_completed t.state ≡ true
      → receipt t.id s ≡ some r
      → record_trade t signature cluster at s ≡ (err already_issued, s)
  -- A receipt that is returned is kept, and is for the trade.
  pub keeps :
      (t : Trade) (signature cluster : String) (at : ℕ) (s : State) (r : Receipt)
      → (record_trade t signature cluster at s).0 ≡ ok r
      → receipt t.id (record_trade t signature cluster at s).1 ≡ some r
  -- No other trade's receipt changes.
  pub keeps_others :
      (t : Trade) (signature cluster other : String) (at : ℕ) (s : State)
      → str_eq t.id other ≡ false
      → receipt other (record_trade t signature cluster at s).1 ≡ receipt other s
