-- ===== src/Trade.antt =====
-- internal/trade: the trade service. `Machine` is the table of transitions, `LedgerApi` what it needs
-- of a ledger, `Monad` the state that a method works on and its errors, `Spend` the spending caps,
-- `Service` what the methods share, `Opening`, `Methods` and `Receipts` the methods, `Sweep` the
-- expiry of trades that nobody moves, and `Steps` all of them as a step relation, which `Audit` and
-- `Finality` are about; `Interleaved` splits a call into its transactions.
pub mod Machine
pub mod LedgerApi
pub mod Monad
pub mod Spend
pub mod Service
pub mod Confirm
pub mod Opening
pub mod Methods
pub mod Receipts
pub mod Sweep
pub mod Settle
pub mod Reconcile
pub mod Steps
pub mod Audit
pub mod Interleaved
pub mod Finality
pub mod Requests
mod Tests
