-- ===== src/Trade/Settle/Verdict.antt =====
-- internal/trade/settlement.go: what a settlement has checked, and what it leaves in the ledger.
use vtessera.Common.{
  ℕ, ◌⊎◌, ◌≡◌, ◌≢◌, sym, ap, subst, ◌∙◌, Bool, false, Option, none, some, List, String, ok, arith,
  inl, inr, Result-cases, Bool-cases,
}
use vtessera.Cluster.{cluster_name}
use vtessera.Domain.{Trade, TradeState, Receipt, SettlementRequest}
use vtessera.Settlement.{Transaction, Terms, VerifyError, mismatch, underivable}
use vtessera.Trade.LedgerApi.{LedgerApi}
use vtessera.Trade.Machine.{can_transition}
use vtessera.Trade.Monad.{SettlementDeps, World, throw, ◌>>=◌}
use vtessera.Trade.Monad.Runs.{lift-then, bind-ok, write-then}
use vtessera.Trade.Service.{apply, apply_as}
use vtessera.Trade.Settle.{
  terms_of, check_request_cluster, confirm_requests, refuse, expire_failed, issue_settled,
  conclude_settled, settle, settle_landed, settle_fetched,
}

-- Only a pending trade is settled.
can_transition-settled :
    (s : TradeState)
    → (can_transition s TradeState.settled ≡ none) ⊎ (s ≡ TradeState.settlement_pending)
unfolding can_transition
can_transition-settled s = ground arith

apply-settled :
    {L : Type 0} (now : ℕ) (tr : Trade) (actor : String) (w : World L) {t : Trade}
    → (apply now tr actor TradeState.settled w).0 ≡ ok t
    → tr.state ≡ TradeState.settlement_pending
unfolding apply apply_as throw
apply-settled now tr actor w h = elim (can_transition-settled tr.state) [
  | inr e ↦ e
  | inl e ↦ absurd (ground arith)
]

module _ {L : Type 0} where
  refuse-fails :
      (now : ℕ) (tr : Trade) (e : VerifyError) (w : World L) {x : Trade × Receipt}
      → (refuse now tr e w).0 ≢ ok x
  unfolding refuse throw
  refuse-fails now tr underivable w h = absurd (cc)
  refuse-fails now tr mismatch w h =
      let (t, _, e) = bind-ok (apply now tr tr.buyer_agent_id TradeState.disputed) _ w h in
      absurd (ground arith)

  expire_failed-fails :
      (now : ℕ) (tr : Trade) (w : World L) {x : Trade × Receipt} → (expire_failed now tr w).0 ≢ ok x
  unfolding expire_failed ◌>>=◌
  expire_failed-fails now tr w h = absurd (cc)

-- The chain's transaction for the signature is the settlement of the terms of the trade.
pub record IsProved (d : SettlementDeps) (tr : Trade) (tx : Option Transaction) : Type 0 where
  pub agreed : Terms
  pub derived : terms_of d tr ≡ ok agreed
  pub verified : d.verify agreed tx ≡ ok tt

module _ (api : LedgerApi) where
  open api use {State, record_trade, receipt}

  issue_settled-ok :
      (d : SettlementDeps) (now : ℕ) (tr : Trade) (sig : String) (w : World State) (r : Receipt)
      → (issue_settled api d now tr sig w).0 ≡ ok r
      → receipt tr.id (issue_settled api d now tr sig w).1.ledger ≡ some r
  unfolding issue_settled
  issue_settled-ok d now tr sig w r h =
      let cluster = cluster_name d.cluster in
      elim (Result-cases (record_trade tr sig cluster now w.ledger).0) [
        | inr (x, e) ↦ absurd (ground arith)
        | inl (q, e) ↦
            rw (e, issue_settled) (api.keeps tr sig cluster now w.ledger r (ground arith))
      ]

  conclude_settled-ok :
      (d : SettlementDeps) (now : ℕ) (settled : Trade) (sig : String) (w : World State) (t : Trade)
      (r : Receipt)
      → (conclude_settled api d now settled sig w).0 ≡ ok (t, r)
      → receipt t.id (conclude_settled api d now settled sig w).1.ledger ≡ some r
  unfolding conclude_settled
  conclude_settled-ok d now settled sig w t r h =
      let (q, issued, e) = bind-ok (issue_settled api d now settled sig) _ w h in
      let (same, kept) = write-then _ _ _ (sym (ap (λ x. x.0) e) ∙ h) in
      rw (e, kept)
        (subst
          (λ (x : Trade × Receipt).
            receipt x.0.id (issue_settled api d now settled sig w).1.ledger ≡ some x.1)
          (sym same) (issue_settled-ok d now settled sig w q issued))

  settle-ok :
      (d : SettlementDeps) (now : ℕ) (tr : Trade) (rs : List SettlementRequest)
      (current sig : String) (w : World State) (t : Trade) (r : Receipt)
      → (settle api d now tr rs current sig w).0 ≡ ok (t, r)
      → (tr.state ≡ TradeState.settlement_pending)
        × (receipt t.id (settle api d now tr rs current sig w).1.ledger ≡ some r)
  unfolding settle
  settle-ok d now tr rs current sig w t r h =
      let (u, _, e) = bind-ok (confirm_requests now tr.id rs current sig) _ w h in
      let (settled, applied, f) =
        bind-ok (apply now tr tr.buyer_agent_id TradeState.settled) _ _
          (sym (ap (λ x. x.0) e) ∙ h) in
      let run = e ∙ f in
      (
        apply-settled now tr tr.buyer_agent_id _ applied,
        rw run (conclude_settled-ok d now settled sig _ t r (sym (ap (λ x. x.0) run) ∙ h)),
      )

  settle_landed-ok :
      (d : SettlementDeps) (now : ℕ) (tr : Trade) (rs : List SettlementRequest)
      (current sig : String) (tx : Option Transaction) (w : World State) (t : Trade) (r : Receipt)
      → (settle_landed api d now tr rs current sig tx w).0 ≡ ok (t, r)
      → IsProved d tr tx
        × (tr.state ≡ TradeState.settlement_pending)
        × (receipt t.id (settle_landed api d now tr rs current sig tx w).1.ledger ≡ some r)
  unfolding settle_landed
  settle_landed-ok d now tr rs current sig tx w t r h =
      let (agreed, derived, e) = lift-then (terms_of d tr) _ w h in
      let after = sym (ap (λ x. x.0) e) ∙ h in
      elim (Result-cases (d.verify agreed tx)) [
        | inr (x, f) ↦ absurd (refuse-fails now tr x w (rw f at after))
        | inl (u, f) ↦
            let (pending, kept) = settle-ok d now tr rs current sig w t r (rw f at after) in
            (record { agreed = agreed; derived = derived; verified = f }, pending, rw (e, f) kept)
      ]

  -- A verdict that settles has the transaction proved, and it did not fail on the chain.
  pub settle_fetched-ok :
      (d : SettlementDeps) (now : ℕ) (tr : Trade) (rs : List SettlementRequest)
      (current sig : String) (tx : Option Transaction) (failed : Bool) (w : World State) (t : Trade)
      (r : Receipt)
      → (settle_fetched api d now tr rs current sig (tx, failed) w).0 ≡ ok (t, r)
      → (check_request_cluster d.cluster rs current ≡ ok tt)
        × (failed ≡ false)
        × IsProved d tr tx
        × (tr.state ≡ TradeState.settlement_pending)
        × (receipt t.id (settle_fetched api d now tr rs current sig (tx, failed) w).1.ledger
            ≡ some r)
  unfolding settle_fetched
  settle_fetched-ok d now tr rs current sig tx failed w t r h =
      let (u, same_cluster, e) = lift-then (check_request_cluster d.cluster rs current) _ w h in
      let after = sym (ap (λ x. x.0) e) ∙ h in
      elim (Bool-cases failed) [
        | inl f ↦ absurd (expire_failed-fails now tr w (rw f at after))
        | inr f ↦
            let (proved, pending, kept) =
              settle_landed-ok d now tr rs current sig tx w t r (rw f at after) in
            (same_cluster, f, proved, pending, rw (e, f) kept)
      ]
