-- ===== src/Trade/Settle/Confirmed.antt =====
-- `ConfirmSettlement` of internal/trade/settlement.go: what a confirmation has checked.
use vtessera.Common.{ℕ, ◌≡◌, sym, ap, ◌∙◌, true, false, ◌||◌, Option, some, List, String, ok}
use vtessera.Domain.{Trade, TradeState, Receipt, SettlementRequest, party, state_eq}
use vtessera.Settlement.{Transaction}
use vtessera.Store.{get_trade}
use vtessera.Store.Settlement.{list_settlement_requests, get_settlement_request}
use vtessera.Trade.LedgerApi.{LedgerApi}
use vtessera.Trade.Monad.{Service, SettlementDeps, World, ◌>>=◌}
use vtessera.Trade.Monad.Runs.{lift-then, bind-ok, bind-passed, throw_if-then, or_throw-then}
use vtessera.Trade.Service.{party_trade, settlement_deps}
use vtessera.Trade.Confirm.{await_transaction}
use vtessera.Trade.Settle.{
  note_signature, confirm_against, confirm_pending, confirm_in, confirm_settlement,
}
use vtessera.Trade.Settle.Verdict.{IsProved, settle_fetched-ok}
use vtessera.Trade.Methods.Lapse.{party_trade-found}

pending_tests :
    (s : TradeState)
    → s ≡ TradeState.settlement_pending
    → ((state_eq s TradeState.settled || state_eq s TradeState.recorded) ≡ false)
      × (state_eq s TradeState.settlement_pending ≡ true)
unfolding state_eq
pending_tests s h = (
  ap (λ x. state_eq x TradeState.settled || state_eq x TradeState.recorded) h,
  ap (λ x. state_eq x TradeState.settlement_pending) h,
)

-- The chain has the transaction of the signature, it ran, and it settles the terms of the trade.
pub record IsOnChain (d : SettlementDeps) (now : ℕ) (tr : Trade) (sig : String) : Type 0 where
  pub tx : Option Transaction
  pub answered : await_transaction d now sig ≡ ok (tx, false)
  pub proved : IsProved d tr tx

module _ (api : LedgerApi) where
  open api use {State, receipt}

  confirm_against-ok :
      (d : SettlementDeps) (now : ℕ) (tr : Trade) (sig : String) (rs : List SettlementRequest)
      (current : Option SettlementRequest) (w : World State) (t : Trade) (r : Receipt)
      → (confirm_against api d now tr sig rs current w).0 ≡ ok (t, r)
      → IsOnChain d now tr sig
        × (receipt t.id (confirm_against api d now tr sig rs current w).1.ledger ≡ some r)
  unfolding confirm_against
  confirm_against-ok d now tr sig rs current w t r h =
      let (id, _, e) = bind-ok (note_signature d now rs sig current) _ w h in
      let (fetched, answered, f) = lift-then _ _ _ (sym (ap (λ x. x.0) e) ∙ h) in
      let run = e ∙ f in
      let (_, no_failure, proved, _, kept) =
        settle_fetched-ok api d now tr rs id sig fetched.0 fetched.1 _ t r
          (sym (ap (λ x. x.0) run) ∙ h) in
      (
        record {
          tx = fetched.0;
          answered = answered ∙ ap (λ b. ok (fetched.0, b)) no_failure;
          proved = proved;
        },
        rw run kept,
      )

  confirm_pending-ok :
      (d : SettlementDeps) (now : ℕ) (tr : Trade) (sig : String) (w : World State) (t : Trade)
      (r : Receipt)
      → (confirm_pending api d now tr sig w).0 ≡ ok (t, r)
      → IsOnChain d now tr sig
        × (receipt t.id (confirm_pending api d now tr sig w).1.ledger ≡ some r)
  unfolding confirm_pending ◌>>=◌
  confirm_pending-ok d now tr sig w t r h =
      confirm_against-ok d now tr sig (list_settlement_requests w.db tr.id)
        (get_settlement_request w.db tr.id) w t r h

  confirm_in-ok :
      (d : SettlementDeps) (now : ℕ) (tr : Trade) (id sig : String) (w : World State) (t : Trade)
      (r : Receipt)
      → tr.state ≡ TradeState.settlement_pending
      → (confirm_in api d now tr id sig w).0 ≡ ok (t, r)
      → IsOnChain d now tr sig × (receipt t.id (confirm_in api d now tr id sig w).1.ledger ≡ some r)
  unfolding confirm_in
  confirm_in-ok d now tr id sig w t r pending h =
      let (not_ended, still) = pending_tests tr.state pending in
      rw (not_ended, still) (confirm_pending-ok d now tr sig w t r (rw (not_ended, still) at h))

  -- A caller that confirms a pending trade is a party to it; the signature is that of a transaction
  -- which the chain has, which ran, and which the verifier proved to settle the terms of the trade;
  -- and the receipt is the one that the ledger keeps.
  pub confirm_settlement-settles :
      (svc : Service) (now : ℕ) (actor id signature : String) (w : World State) (tr t : Trade)
      (r : Receipt)
      → get_trade w.db id ≡ some tr
      → tr.state ≡ TradeState.settlement_pending
      → (confirm_settlement api svc now actor id signature w).0 ≡ ok (t, r)
      → (party tr actor ≡ true)
        × (d : SettlementDeps) × (settlement_deps svc ≡ ok d)
        × (sig : String) × (d.signature signature ≡ some sig)
        × IsOnChain d now tr sig
        × (receipt t.id (confirm_settlement api svc now actor id signature w).1.ledger ≡ some r)
  unfolding confirm_settlement
  confirm_settlement-settles svc now actor id signature w tr t r found pending h =
      let (u, read, _) = bind-ok (party_trade actor id) _ w h in
      let (in_it, same) = party_trade-found actor id w tr u found read in
      let entered = bind-passed (party_trade actor id) _ w tr same in
      let (d, deps, e) = lift-then (settlement_deps svc) _ w (sym (ap (λ x. x.0) entered) ∙ h) in
      let run₁ = entered ∙ e in
      let (_, f) = throw_if-then _ _ _ w (sym (ap (λ x. x.0) run₁) ∙ h) in
      let run₂ = run₁ ∙ f in
      let (sig, parsed, g) = or_throw-then _ _ _ w (sym (ap (λ x. x.0) run₂) ∙ h) in
      let run₃ = run₂ ∙ g in
      let (on_chain, kept) =
        confirm_in-ok d now tr id sig w t r pending (sym (ap (λ x. x.0) run₃) ∙ h) in
      (in_it, d, deps, sig, parsed, on_chain, rw run₃ kept)
