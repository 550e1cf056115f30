-- ===== src/Trade/Receipts/Commit.antt =====
-- `Record` of internal/trade/trade.go: what a commit has checked, and what it leaves in the ledger.
use vtessera.Common.{
  ℕ, ◌⊎◌, ◌≡◌, sym, ap, subst, ◌∙◌, true, false, none, some, String, ok, arith, inl, inr,
  Result-cases,
}
use vtessera.Domain.{Trade, TradeState, Receipt, state_eq, party}
use vtessera.Store.{get_trade}
use vtessera.Trade.LedgerApi.{LedgerApi}
use vtessera.Trade.Machine.{can_transition}
use vtessera.Trade.Monad.{Service, World, throw}
use vtessera.Trade.Monad.Runs.{lift-then, gets-then, bind-ok, bind-passed, write-then}
use vtessera.Trade.Spend.{check_spend}
use vtessera.Trade.Service.{party_trade, apply, apply_as}
use vtessera.Trade.Receipts.{do_record, commit, conclude, issue}
use vtessera.Trade.Methods.Lapse.{party_trade-found}

-- Only an accepted trade is recorded.
can_transition-recorded :
    (s : TradeState) → (can_transition s TradeState.recorded ≡ none) ⊎ (s ≡ TradeState.accepted)
unfolding can_transition
can_transition-recorded s = ground arith

apply-recorded :
    {L : Type 0} (now : ℕ) (tr : Trade) (actor : String) (w : World L) {t : Trade}
    → (apply now tr actor TradeState.recorded w).0 ≡ ok t
    → tr.state ≡ TradeState.accepted
unfolding apply apply_as throw
apply-recorded now tr actor w h = elim (can_transition-recorded tr.state) [
  | inr e ↦ e
  | inl e ↦ absurd (ground arith)
]

module _ (api : LedgerApi) where
  open api use {State, record_trade, receipt}

  issue-ok :
      (now : ℕ) (tr : Trade) (w : World State) (r : Receipt)
      → (issue api now tr w).0 ≡ ok r
      → receipt tr.id (issue api now tr w).1.ledger ≡ some r
  unfolding issue
  issue-ok now tr w r h = elim (Result-cases (record_trade tr "" "" now w.ledger).0) [
    | inr (x, e) ↦ absurd (ground arith)
    | inl (q, e) ↦ rw (e, issue) (api.keeps tr "" "" now w.ledger r (ground arith))
  ]

  conclude-ok :
      (now : ℕ) (recorded : Trade) (w : World State) (t : Trade) (r : Receipt)
      → (conclude api now recorded w).0 ≡ ok (t, r)
      → receipt t.id (conclude api now recorded w).1.ledger ≡ some r
  unfolding conclude
  conclude-ok now recorded w t r h =
      let (q, issued, e) = bind-ok (issue api now recorded) _ w h in
      let (same, kept) = write-then _ _ _ (sym (ap (λ x. x.0) e) ∙ h) in
      rw (e, kept)
        (subst
          (λ (x : Trade × Receipt). receipt x.0.id (issue api now recorded w).1.ledger ≡ some x.1)
          (sym same) (issue-ok now recorded w q issued))

  commit-ok :
      (svc : Service) (now : ℕ) (actor : String) (tr : Trade) (w : World State) (t : Trade)
      (r : Receipt)
      → (commit api svc now actor tr w).0 ≡ ok (t, r)
      → (check_spend svc w.db now tr.buyer_agent_id tr.amount tr.mint tr.id ≡ ok tt)
        × (tr.state ≡ TradeState.accepted)
        × (receipt t.id (commit api svc now actor tr w).1.ledger ≡ some r)
  unfolding commit
  commit-ok svc now actor tr w t r h =
      let e = gets-then _ _ w in
      let (u, allowed, f) = lift-then _ _ w (sym (ap (λ x. x.0) e) ∙ h) in
      let (recorded, applied, g) =
        bind-ok (apply now tr actor TradeState.recorded) _ w (sym (ap (λ x. x.0) (e ∙ f)) ∙ h) in
      let run = e ∙ f ∙ g in
      (
        allowed,
        apply-recorded now tr actor w applied,
        rw run (conclude-ok now recorded _ t r (sym (ap (λ x. x.0) run) ∙ h)),
      )

  -- A party that records a trade which was not recorded has recorded an accepted one, inside the
  -- caps of its buyer, and the receipt that it gets is the one that the ledger keeps for the trade.
  pub do_record-commits :
      (svc : Service) (now : ℕ) (actor id : String) (w : World State) (tr t : Trade) (r : Receipt)
      → get_trade w.db id ≡ some tr
      → state_eq tr.state TradeState.recorded ≡ false
      → (do_record api svc now actor id w).0 ≡ ok (t, r)
      → (party tr actor ≡ true)
        × (tr.state ≡ TradeState.accepted)
        × (check_spend svc w.db now tr.buyer_agent_id tr.amount tr.mint tr.id ≡ ok tt)
        × (receipt t.id (do_record api svc now actor id w).1.ledger ≡ some r)
  unfolding do_record
  do_record-commits svc now actor id w tr t r found open_still h =
      let (u, read, _) = bind-ok (party_trade actor id) _ w h in
      let (in_it, same) = party_trade-found actor id w tr u found read in
      let entered = bind-passed (party_trade actor id) _ w tr same in
      let run = sym (ap (λ x. x.0) entered) ∙ h in
      let rest = rw open_still at run in
      let (allowed, accepted, kept) = commit-ok svc now actor tr w t r rest in
      (in_it, accepted, allowed, rw (entered, open_still) kept)
