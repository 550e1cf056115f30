-- ===== src/Trade/Methods/Transitions.antt =====
-- The methods of internal/trade/trade.go by the three kinds of write that they make.
use vtessera.Common.{
  ℕ, ◌≡◌, refl, subst, Option, none, some, String, ok, arith, inl, inr, Option-cases, Result-cases,
}
use vtessera.Money.{Amount}
use vtessera.Domain.{Offer, Trade, TradeState, SettlementMode, Resolution, OfferStatus, AgentLimits}
use vtessera.Store.{Db, create_trade, add_trade_acceptance, set_offer_status, set_agent_limits}
use vtessera.Trade.LedgerApi.{LedgerApi}
use vtessera.Trade.Monad.{Service, write, modify, ◌>>=◌}
use vtessera.Trade.Service.{append_event}
use vtessera.Trade.Service.Invariant.{
  IsKept, Maintains, keeping, read_trade-Maintains, party_trade-Maintains, apply_as-Maintains,
  apply-Maintains,
}
use vtessera.Trade.Opening.{create, create_unless, create_from, create_guards, new_trade}
use vtessera.Trade.Methods.{
  transition, begin_negotiation, may_lapse, cancel, cancel_open, dispute, resolve, accept_open,
  accept, get, admin_trade, raise_under, raise_limits,
}
use vtessera.Trade.Receipts.{issue, tessera_of, tessera, commit, conclude, do_record}

module _ {L : Type 0} {P : Db → Type 0} (kept : IsKept P) where
  open kept use {opens, ignores}

  -- A row of another table.
  add_acceptance-Maintains :
      (trade_id actor : String) (now : ℕ)
      → Maintains {L = L} P (modify (λ db. add_trade_acceptance db trade_id actor now))
  unfolding modify add_trade_acceptance
  add_acceptance-Maintains trade_id actor now = record {
    at = λ w p.
        ignores w.db (add_trade_acceptance w.db trade_id actor now).1 (ground arith) (ground arith)
          (ground arith) p;
  }

  set_limits-Maintains :
      (l : AgentLimits) → Maintains {L = L} P (modify (λ db. (tt, set_agent_limits db l)))
  unfolding modify set_agent_limits
  set_limits-Maintains l = record {
    at = λ w p. ignores w.db (set_agent_limits w.db l) refl refl refl p;
  }

  pub set_offer-Maintains :
      (id : String) (status : OfferStatus) (now : ℕ)
      → Maintains {L = L} P (write (λ db. set_offer_status db id status now))
  unfolding set_offer_status write
  set_offer-Maintains id status now = record {
    at = λ w p. elim (Result-cases (set_offer_status w.db id status now)) [
      | inl (db, e) ↦
          let (t, l, r) = offers_only w.db db e in rw (e, write) (ignores w.db db t l r p)
      | inr (x, e) ↦ rw (e, write) p
    ];
  }
    where
      offers_only :
          (before after : Db)
          → set_offer_status before id status now ≡ ok after
          → (after.trades ≡ before.trades)
            × (after.trade_events ≡ before.trade_events)
            × (after.settlement_requests ≡ before.settlement_requests)
      offers_only before after e = ground arith

  ruleset writes = (
    keeping, read_trade-Maintains, party_trade-Maintains, apply_as-Maintains, apply-Maintains,
    add_acceptance-Maintains, set_limits-Maintains, set_offer-Maintains,
  )

  pub transition-Maintains :
      (now : ℕ) (actor id : String) (from to : TradeState)
      → Maintains {L = L} P (transition now actor id from to)
  unfolding transition
  transition-Maintains now actor id from to = search (writes, kept)

  pub begin_negotiation-Maintains :
      (now : ℕ) (actor id : String) → Maintains {L = L} P (begin_negotiation now actor id)
  unfolding begin_negotiation
  begin_negotiation-Maintains now actor id =
      transition-Maintains now actor id TradeState.proposed TradeState.negotiating

  may_lapse-Maintains :
      (svc : Service) (now : ℕ) (tr : Trade) → Maintains {L = L} P (may_lapse svc now tr)
  unfolding may_lapse
  may_lapse-Maintains svc now tr = search writes

  cancel_open-Maintains :
      (svc : Service) (now : ℕ) (actor id : String) (tr : Trade)
      → Maintains {L = L} P (cancel_open svc now actor id tr)
  unfolding cancel_open
  cancel_open-Maintains svc now actor id tr = search (writes, kept, may_lapse-Maintains) depth 9

  pub cancel-Maintains :
      (svc : Service) (now : ℕ) (actor id : String) → Maintains {L = L} P (cancel svc now actor id)
  unfolding cancel
  cancel-Maintains svc now actor id = search (writes, cancel_open-Maintains) depth 9

  pub dispute-Maintains : (now : ℕ) (actor id : String) → Maintains {L = L} P (dispute now actor id)
  unfolding dispute
  dispute-Maintains now actor id = search (writes, kept)

  accept_open-Maintains :
      (now : ℕ) (actor id : String) → Maintains {L = L} P (accept_open now actor id)
  unfolding accept_open
  accept_open-Maintains now actor id = search (writes, kept) depth 9

  pub accept-Maintains : (now : ℕ) (actor id : String) → Maintains {L = L} P (accept now actor id)
  unfolding accept
  accept-Maintains now actor id = search (writes, accept_open-Maintains) depth 9

  pub resolve-Maintains :
      (now : ℕ) (operator id : String) (outcome : Resolution)
      → Maintains {L = L} P (resolve now operator id outcome)
  unfolding resolve
  resolve-Maintains now operator id outcome = search (writes, kept)

  pub get-Maintains : (actor id : String) → Maintains {L = L} P (get actor id)
  unfolding get
  get-Maintains actor id = search writes

  pub admin_trade-Maintains : (id : String) → Maintains {L = L} P (admin_trade id)
  unfolding admin_trade
  admin_trade-Maintains id = search writes

  pub raise_limits-Maintains :
      (svc : Service) (now : ℕ) (agent_id : String) (per_trade per_day : Amount)
      → Maintains {L = L} P (raise_limits svc now agent_id per_trade per_day)
  unfolding raise_limits raise_under
  raise_limits-Maintains svc now agent_id per_trade per_day = elim (Option-cases svc.limits) [
    | inl e ↦ rw (e, raise_limits) (search writes)
    | inr (p, e) ↦ rw (e, raise_limits) (search writes)
  ]

  create_from-Maintains :
      (svc : Service) (now : ℕ) (id actor : String) (offer : Offer) (mode : SettlementMode)
      (key : String)
      → Maintains {L = L} P (create_from svc now id actor offer mode key)
  unfolding create_from append_event ◌>>=◌
  create_from-Maintains svc now id actor offer mode key = record {
    at = λ w p. elim (Result-cases (create_guards svc w.db now actor offer mode)) [
      | inr (x, e) ↦ subst P (ground arith) p
      | inl (u, g) ↦
          elim (Result-cases (create_trade w.db (new_trade now id offer mode actor) key)) [
            | inr (x, e) ↦ subst P (ground arith) p
            | inl (db, e) ↦
                subst P (ground arith)
                  (opens now actor key (new_trade now id offer mode actor) w.db db refl e p)
          ]
    ];
  }

  create_unless-Maintains :
      (svc : Service) (now : ℕ) (id actor offer_id : String) (mode : SettlementMode) (key : String)
      (existing : Option Trade)
      → Maintains {L = L} P (create_unless svc now id actor offer_id mode key existing)
  unfolding create_unless
  create_unless-Maintains svc now id actor offer_id mode key none =
      search (writes, create_from-Maintains) depth 9
  create_unless-Maintains svc now id actor offer_id mode key (some t) = search writes

  pub create-Maintains :
      (svc : Service) (now : ℕ) (id actor offer_id : String) (mode : SettlementMode) (key : String)
      → Maintains {L = L} P (create svc now id actor offer_id mode key)
  unfolding create
  create-Maintains svc now id actor offer_id mode key =
      search (writes, create_unless-Maintains) depth 9

-- The methods that write a receipt.
module _ (api : LedgerApi) {P : Db → Type 0} (kept : IsKept P) where
  open api use {State}

  issue-Maintains : (now : ℕ) (tr : Trade) → Maintains P (issue api now tr)
  unfolding issue
  issue-Maintains now tr = record {
    at = λ w p. elim (Result-cases (api.record_trade tr "" "" now w.ledger).0) [
      | inl (r, e) ↦ rw (e, issue) p
      | inr (x, e) ↦ rw (e, issue) p
    ];
  }

  pub tessera_of-Maintains : (id : String) → Maintains P (tessera_of api id)
  unfolding tessera_of
  tessera_of-Maintains id = record {
    at = λ w p. elim (Option-cases (api.receipt id w.ledger)) [
      | inl e ↦ rw (e, tessera_of) p
      | inr (r, e) ↦ rw (e, tessera_of) p
    ];
  }

  pub tessera-Maintains : (actor id : String) → Maintains P (tessera api actor id)
  unfolding tessera
  tessera-Maintains actor id = search (keeping, party_trade-Maintains, tessera_of-Maintains)

  conclude-Maintains : (now : ℕ) (tr : Trade) → Maintains P (conclude api now tr)
  unfolding conclude
  conclude-Maintains now tr = search (keeping, issue-Maintains, set_offer-Maintains, kept)

  commit-Maintains :
      (svc : Service) (now : ℕ) (actor : String) (tr : Trade)
      → Maintains P (commit api svc now actor tr)
  unfolding commit
  commit-Maintains svc now actor tr =
      search (keeping, apply-Maintains, conclude-Maintains, kept) depth 9

  pub do_record-Maintains :
      (svc : Service) (now : ℕ) (actor id : String) → Maintains P (do_record api svc now actor id)
  unfolding do_record
  do_record-Maintains svc now actor id =
      search (keeping, party_trade-Maintains, tessera_of-Maintains, commit-Maintains) depth 9
