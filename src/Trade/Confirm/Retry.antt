-- ===== src/Trade/Confirm/Retry.antt =====
-- internal/trade/settlement.go: how often `awaitTransaction` asks the chain, and what it returns.
use vtessera.Common.{
  ℕ, zero, suc, ◌+◌, ◌≤◌, ◌<◌, ◌≡◌, ◌⊎◌, refl, Bool, true, false, Option, some, leb, String, Result,
  ok, err, arith, inl, inr, Bool-cases,
}
use vtessera.Settlement.{Transaction}
use vtessera.Trade.Monad.{
  TradeError, SettlementDeps, Fetched, landed, absent, unreachable, chain_failed, still_pending,
  interrupted,
}
use vtessera.Trade.Confirm.{attempts, delay_for, await, await_transaction}

-- What the wait can end with, by the attempts that it has left: the first answer that is not
-- "absent", each attempt before it having waited its delay; or no such answer in all of them.
pub data Ends (d : SettlementDeps) (now : ℕ) (sig : String)
    : ℕ → Result TradeError (Option Transaction × Bool) → Type 0 where
  found :
      {attempt : ℕ} (tx : Option Transaction) (failed : Bool)
      → d.transaction now attempt sig ≡ landed tx failed
      → Ends d now sig attempt (ok (tx, failed))
  fails :
      {attempt : ℕ}
      → d.transaction now attempt sig ≡ unreachable
      → Ends d now sig attempt (err chain_failed)
  gives_up :
      {attempt : ℕ}
      → d.transaction now attempt sig ≡ absent
      → attempts d.confirm ≤ attempt
      → Ends d now sig attempt (err still_pending)
  is_interrupted :
      {attempt : ℕ}
      → d.transaction now attempt sig ≡ absent
      → attempt < attempts d.confirm
      → d.waits now (delay_for d.confirm attempt) ≡ false
      → Ends d now sig attempt (err interrupted)
  asks_again :
      {attempt : ℕ} {r : Result TradeError (Option Transaction × Bool)}
      → d.transaction now attempt sig ≡ absent
      → attempt < attempts d.confirm
      → d.waits now (delay_for d.confirm attempt) ≡ true
      → Ends d now sig (attempt + 1) r
      → Ends d now sig attempt r

Fetched-cases :
    (f : Fetched)
    → ((tx : Option Transaction) × (failed : Bool) × (f ≡ landed tx failed))
      ⊎ ((f ≡ absent) ⊎ (f ≡ unreachable))
Fetched-cases (landed tx failed) = inl (tx, failed, refl)
Fetched-cases absent = inr (inl refl)
Fetched-cases unreachable = inr (inr refl)

-- With a round for each attempt that is left, the loop ends.
await-Ends :
    (d : SettlementDeps) (now : ℕ) (sig : String) (fuel attempt : ℕ)
    → attempts d.confirm < fuel + attempt
    → 0 < fuel
    → (r : Result TradeError (Option Transaction × Bool)) × (await d now sig fuel attempt ≡ some r)
      × Ends d now sig attempt r
unfolding await
await-Ends d now sig zero attempt enough h = absurd (omega arith)
await-Ends d now sig (suc fuel) attempt enough h =
    elim (Fetched-cases (d.transaction now attempt sig)) [
      | inl (tx, failed, e) ↦ (ok (tx, failed), rw (e, await) refl, found tx failed e)
      | inr (inr e) ↦ (err chain_failed, rw (e, await) refl, fails e)
      | inr (inl e) ↦ elim (Bool-cases (leb (attempts d.confirm) attempt)) [
        | inl g ↦ (err still_pending, rw (e, g, await) refl, gives_up e (ground arith))
        | inr g ↦ elim (Bool-cases (d.waits now (delay_for d.confirm attempt))) [
          | inr k ↦ (err interrupted, rw (e, g, k, await) refl, is_interrupted e (ground arith) k)
          | inl k ↦
              let (r, run, ends) =
                await-Ends d now sig fuel (attempt + 1) (ground arith) (ground arith) in
              (r, rw (e, g, k, await) run, asks_again e (ground arith) k ends)
        ]
      ]
    ]

-- The wait always ends, and it ends by the rules of `Ends` from the first attempt.
pub await_transaction-Ends :
    (d : SettlementDeps) (now : ℕ) (sig : String) → Ends d now sig 1 (await_transaction d now sig)
unfolding await_transaction attempts
await_transaction-Ends d now sig =
    let (r, run, ends) = await-Ends d now sig (attempts d.confirm) 1 (omega arith) (ground arith) in
    rw (run, await_transaction) ends
