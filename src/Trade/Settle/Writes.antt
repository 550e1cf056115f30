-- ===== src/Trade/Settle/Writes.antt =====
-- The methods of internal/trade/settlement.go by the writes that they make.
use vtessera.Common.{
  ℕ, ◌≡◌, Bool, Option, none, some, List, String, Result, ok, inl, inr, Result-cases,
}
use vtessera.Cluster.{cluster_name}
use vtessera.Domain.{Trade, SettlementRequest}
use vtessera.Store.{Db, StoreError}
use vtessera.Store.Settlement.{
  create_settlement_request, set_settlement_signature, confirm_settlement_request,
  expire_settlement_requests,
}
use vtessera.Store.Settlement.Open.{RequestWrite, creates, signs, confirms, expires}
use vtessera.Settlement.{Transaction, VerifyError, mismatch, underivable}
use vtessera.Trade.LedgerApi.{LedgerApi}
use vtessera.Trade.Monad.{Service, SettlementDeps, Built, write, modify, verdict}
use vtessera.Trade.Service.Invariant.{
  IsKept, Maintains, keeping, throw-Maintains, bind-Maintains, lift-Maintains,
  party_trade-Maintains, apply-Maintains,
}
use vtessera.Trade.Methods.Transitions.{set_offer-Maintains, tessera_of-Maintains}
use vtessera.Trade.Settle.{
  settlement_request_for, issue_request, build_settlement, confirm_requests, refuse, expire_failed,
  note_signature, issue_settled, conclude_settled, settle, settle_landed, settle_fetched,
  confirm_against, confirm_pending, confirm_in, confirm_settlement, terms_of,
}

module _ {L : Type 0} {P : Db → Type 0} (kept : IsKept P) where
  open kept use {requests}

  request-Maintains :
      (f : Db → Result StoreError Db)
      → ((db db' : Db) → f db ≡ ok db' → RequestWrite db db')
      → Maintains {L = L} P (write f)
  unfolding write
  request-Maintains f h = record {
    at = λ w p. elim (Result-cases (f w.db)) [
      | inl (db, e) ↦ rw (e, write) (requests (h w.db db e) p)
      | inr (x, e) ↦ rw (e, write) p
    ];
  }

  create_request-Maintains :
      (r : SettlementRequest) → Maintains {L = L} P (write (λ db. create_settlement_request db r))
  create_request-Maintains r = request-Maintains _ (λ db db' e. creates db db' r e)

  sign-Maintains :
      (id sig : String) (now : ℕ)
      → Maintains {L = L} P (write (λ db. set_settlement_signature db id sig now))
  sign-Maintains id sig now = request-Maintains _ (λ db db' e. signs db db' id sig now e)

  confirm-Maintains :
      (id sig : String) (now : ℕ)
      → Maintains {L = L} P (write (λ db. confirm_settlement_request db id sig now))
  confirm-Maintains id sig now = request-Maintains _ (λ db db' e. confirms db db' id sig now e)

  pub expire-Maintains :
      (id : String) (now : ℕ)
      → Maintains {L = L} P (modify (λ db. (tt, expire_settlement_requests db id now)))
  unfolding modify
  expire-Maintains id now = record { at = λ w p. requests (expires w.db id now) p }

  ruleset writes = (
    keeping, party_trade-Maintains, apply-Maintains, create_request-Maintains, sign-Maintains,
    confirm-Maintains, expire-Maintains,
  )

  pub settlement_request_for-Maintains :
      (svc : Service) (actor id : String)
      → Maintains {L = L} P (settlement_request_for svc actor id)
  unfolding settlement_request_for
  settlement_request_for-Maintains svc actor id = search writes depth 9

  issue_request-Maintains :
      (now : ℕ) (id actor : String) (d : SettlementDeps) (tr : Trade) (built : Built)
      → Maintains {L = L} P (issue_request now id actor d tr built)
  unfolding issue_request
  issue_request-Maintains now id actor d tr built = search (writes, kept) depth 9

  pub build_settlement-Maintains :
      (svc : Service) (now : ℕ) (id actor trade_id : String)
      → Maintains {L = L} P (build_settlement svc now id actor trade_id)
  unfolding build_settlement
  build_settlement-Maintains svc now id actor trade_id =
      search (writes, issue_request-Maintains) depth 24

  confirm_requests-Maintains :
      (now : ℕ) (id : String) (rs : List SettlementRequest) (current sig : String)
      → Maintains {L = L} P (confirm_requests now id rs current sig)
  unfolding confirm_requests
  confirm_requests-Maintains now id rs current sig = search writes depth 9

  refuse-Maintains :
      (now : ℕ) (tr : Trade) (e : VerifyError) → Maintains {L = L} P (refuse now tr e)
  unfolding refuse
  refuse-Maintains now tr underivable = throw-Maintains (verdict underivable)
  refuse-Maintains now tr mismatch = search (writes, kept)

  expire_failed-Maintains : (now : ℕ) (tr : Trade) → Maintains {L = L} P (expire_failed now tr)
  unfolding expire_failed
  expire_failed-Maintains now tr = search writes

  note_signature-Maintains :
      (d : SettlementDeps) (now : ℕ) (rs : List SettlementRequest) (sig : String)
      (current : Option SettlementRequest)
      → Maintains {L = L} P (note_signature d now rs sig current)
  unfolding note_signature
  note_signature-Maintains d now rs sig none = search writes
  note_signature-Maintains d now rs sig (some r) = search writes depth 9

module _ (api : LedgerApi) {P : Db → Type 0} (kept : IsKept P) where
  open api use {State}

  issue_settled-Maintains :
      (d : SettlementDeps) (now : ℕ) (tr : Trade) (sig : String)
      → Maintains P (issue_settled api d now tr sig)
  unfolding issue_settled
  issue_settled-Maintains d now tr sig = record {
    at = λ w p.
        elim (Result-cases (api.record_trade tr sig (cluster_name d.cluster) now w.ledger).0) [
          | inl (r, e) ↦ rw (e, issue_settled) p
          | inr (x, e) ↦ rw (e, issue_settled) p
        ];
  }

  conclude_settled-Maintains :
      (d : SettlementDeps) (now : ℕ) (tr : Trade) (sig : String)
      → Maintains P (conclude_settled api d now tr sig)
  unfolding conclude_settled
  conclude_settled-Maintains d now tr sig =
      search (keeping, kept, issue_settled-Maintains, set_offer-Maintains)

  settle-Maintains :
      (d : SettlementDeps) (now : ℕ) (tr : Trade) (rs : List SettlementRequest)
      (current sig : String)
      → Maintains P (settle api d now tr rs current sig)
  unfolding settle
  settle-Maintains d now tr rs current sig =
      search
        (keeping, kept, confirm_requests-Maintains, apply-Maintains, conclude_settled-Maintains)
        depth 12

  settle_landed-Maintains :
      (d : SettlementDeps) (now : ℕ) (tr : Trade) (rs : List SettlementRequest)
      (current sig : String) (tx : Option Transaction)
      → Maintains P (settle_landed api d now tr rs current sig tx)
  unfolding settle_landed
  settle_landed-Maintains d now tr rs current sig tx =
      bind-Maintains _ _ (lift-Maintains (terms_of d tr)) (λ t.
        elim (Result-cases (d.verify t tx)) [
          | inl (u, e) ↦ rw e (settle-Maintains d now tr rs current sig)
          | inr (x, e) ↦ rw e (refuse-Maintains kept now tr x)
        ])

  pub settle_fetched-Maintains :
      (d : SettlementDeps) (now : ℕ) (tr : Trade) (rs : List SettlementRequest)
      (current sig : String) (f : Option Transaction × Bool)
      → Maintains P (settle_fetched api d now tr rs current sig f)
  unfolding settle_fetched
  settle_fetched-Maintains d now tr rs current sig (tx, failed) =
      search (keeping, kept, expire_failed-Maintains, settle_landed-Maintains) depth 9

  confirm_against-Maintains :
      (d : SettlementDeps) (now : ℕ) (tr : Trade) (sig : String) (rs : List SettlementRequest)
      (current : Option SettlementRequest)
      → Maintains P (confirm_against api d now tr sig rs current)
  unfolding confirm_against
  confirm_against-Maintains d now tr sig rs current =
      search (keeping, kept, note_signature-Maintains, settle_fetched-Maintains) depth 9

  confirm_pending-Maintains :
      (d : SettlementDeps) (now : ℕ) (tr : Trade) (sig : String)
      → Maintains P (confirm_pending api d now tr sig)
  unfolding confirm_pending
  confirm_pending-Maintains d now tr sig = search (keeping, confirm_against-Maintains)

  confirm_in-Maintains :
      (d : SettlementDeps) (now : ℕ) (tr : Trade) (id sig : String)
      → Maintains P (confirm_in api d now tr id sig)
  unfolding confirm_in
  confirm_in-Maintains d now tr id sig =
      search (keeping, tessera_of-Maintains, confirm_pending-Maintains)

  pub confirm_settlement-Maintains :
      (svc : Service) (now : ℕ) (actor id signature : String)
      → Maintains P (confirm_settlement api svc now actor id signature)
  unfolding confirm_settlement
  confirm_settlement-Maintains svc now actor id signature =
      search (keeping, party_trade-Maintains, confirm_in-Maintains) depth 12
