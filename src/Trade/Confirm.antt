-- ===== src/Trade/Confirm.antt =====
-- internal/trade/settlement.go: the wait for a transaction. A `time.Duration` is the 64 bits of an
-- int64, so that doubling wraps; a number of attempts that is not positive is 0.
pub mod Backoff
pub mod Retry
use vtessera.Common.{
  ℕ, zero, suc, ◌+◌, ◌-◌, ◌*◌, ◌%◌, ◌^◌, Bool, true, false, ◌&&◌, Option, none, some, ltb, leb,
  ◌==◌, if◌then◌else◌, String, Result, ok, err,
}
use vtessera.Settlement.{Transaction}
use vtessera.Trade.Monad.{
  TradeError, SettlementDeps, ConfirmPolicy, Fetched, landed, absent, unreachable, chain_failed,
  still_pending, interrupted, unfinished,
}

abbrev pub duration_size : ℕ
duration_size = 2 ^ 64

abbrev pub duration_half : ℕ
duration_half = 2 ^ 63

-- `d > 0`
abbrev pub is_positive : ℕ → Bool
is_positive d = ltb 0 d && ltb d duration_half

-- `ConfirmPolicy.attempts`
unfoldable pub attempts : ConfirmPolicy → ℕ
attempts p = if p.attempts == 0 then 1 else p.attempts

-- The loop of `delayFor`, by the rounds that are left.
unfoldable pub double : ℕ → ℕ → ℕ
double zero delay = delay
double (suc n) delay =
    let rest = double n (2 * delay % duration_size) in if is_positive delay then rest else delay

unfoldable pub delay_for : ConfirmPolicy → ℕ → ℕ
unfolding double
delay_for p attempt =
    let delay = double (attempt - 1) p.backoff in
    if is_positive p.max_delay && (is_positive delay && ltb p.max_delay delay)
    then p.max_delay
    else delay

-- The loop of `awaitTransaction`; `none` without fuel.
unfoldable pub await :
    SettlementDeps
    → ℕ
    → String
    → (fuel attempt : ℕ) → Option (Result TradeError (Option Transaction × Bool))
await d now sig zero attempt = none
await d now sig (suc fuel) attempt = elim (d.transaction now attempt sig) [
  | landed tx failed ↦ some (ok (tx, failed))
  | unreachable ↦ some (err chain_failed)
  | absent ↦ elim (leb (attempts d.confirm) attempt) [
    | true ↦ some (err still_pending)
    | false ↦ elim (d.waits now (delay_for d.confirm attempt)) [
      | false ↦ some (err interrupted)
      | true ↦ await d now sig fuel (attempt + 1)
    ]
  ]
]

-- One round for each attempt is enough.
unfoldable pub await_transaction :
    SettlementDeps → ℕ → String → Result TradeError (Option Transaction × Bool)
unfolding await attempts
await_transaction d now sig = elim (await d now sig (attempts d.confirm) 1) [
  | none ↦ err unfinished
  | some r ↦ r
]
