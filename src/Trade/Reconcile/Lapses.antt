-- ===== src/Trade/Reconcile/Lapses.antt =====
-- internal/trade/reconcile.go: when the worker gives up on a settlement.
use vtessera.Common.{
  ℕ, ◌≡◌, ◌≢◌, refl, ap, ◌∙◌, Bool, true, false, Option, none, some, List, [], ◌∷◌, String, Result,
  ok, err, if◌then◌else◌, arith, inl, inr, Result-cases, Option-cases,
}
use vtessera.Cluster.{Cluster}
use vtessera.Domain.{Trade, TradeState, TradeEventType, SettlementRequest}
use vtessera.Settlement.{Transaction, VerifyError, mismatch, underivable}
use vtessera.Store.{Db, StoreError}
use vtessera.Trade.LedgerApi.{LedgerApi}
use vtessera.Trade.Machine.{can_transition}
use vtessera.Trade.Monad.{
  TradeError, SettlementDeps, World, M, ◌>>=◌, pure, throw, lift, or_throw, gets, modify, write,
  settlement_failed,
}
use vtessera.Trade.Service.{read_trade, append_event, move, apply_as, apply}
use vtessera.Trade.Settle.{
  check_request_cluster, confirm_requests, refuse, issue_settled, conclude_settled, settle,
  settle_landed, settle_fetched, terms_of,
}

-- No report of a transaction that failed on the chain.
pub record RunsOn {L A : Type 0} (m : M L A) : Type 0 where
  pub at : (w : World L) → (m w).0 ≢ err settlement_failed

not_found-other : TradeError.not_found ≢ settlement_failed
not_found-other e = cc

illegal-other : TradeError.illegal_state ≢ settlement_failed
illegal-other e = cc

verdict-other : (v : VerifyError) → TradeError.verdict v ≢ settlement_failed
verdict-other v e = cc

check_request_cluster-other :
    (want : Cluster) (rs : List SettlementRequest) (current : String)
    → check_request_cluster want rs current ≢ err settlement_failed
unfolding check_request_cluster
check_request_cluster-other want [] current h = cc
check_request_cluster-other want (r ∷ rs) current h =
    ground (arith, check_request_cluster-other want rs current)

failure_of :
    {B : Type 0} (x : TradeError)
    → ◌≡◌ {A = Result TradeError B} (err x) (err settlement_failed)
    → x ≡ settlement_failed
failure_of x h = ground arith

module _ {L A : Type 0} where
  pure-RunsOn : (a : A) → RunsOn {L = L} (pure a)
  unfolding pure
  pure-RunsOn a = record { at = λ w h. cc }

  gets-RunsOn : (f : Db → A) → RunsOn {L = L} (gets f)
  unfolding gets
  gets-RunsOn f = record { at = λ w h. cc }

  modify-RunsOn : (f : Db → A × Db) → RunsOn {L = L} (modify f)
  unfolding modify
  modify-RunsOn f = record { at = λ w h. cc }

  throw-RunsOn : (e : TradeError) → e ≢ settlement_failed → RunsOn {L = L} (throw {A = A} e)
  unfolding throw
  throw-RunsOn e other = record { at = λ w h. other (ground arith) }

  or_throw-RunsOn :
      (o : Option A) (e : TradeError) → e ≢ settlement_failed → RunsOn {L = L} (or_throw o e)
  unfolding or_throw
  or_throw-RunsOn none e other = record { at = λ w h. other (ground arith) }
  or_throw-RunsOn (some a) e other = record { at = λ w h. cc }

  lift-RunsOn : (r : Result TradeError A) → r ≢ err settlement_failed → RunsOn {L = L} (lift r)
  unfolding lift
  lift-RunsOn (ok a) other = record { at = λ w h. cc }
  lift-RunsOn (err e) other = record { at = λ w h. other h }

  if-RunsOn : (b : Bool) (m k : M L A) → RunsOn m → RunsOn k → RunsOn (if b then m else k)
  if-RunsOn true m k p q = p
  if-RunsOn false m k p q = q

module _ {L : Type 0} where
  write-RunsOn : (f : Db → Result StoreError Db) → RunsOn {L = L} (write f)
  unfolding write
  write-RunsOn f = record {
    at = λ w h. elim (Result-cases (f w.db)) [
      | inl (db, e) ↦ absurd (ground arith)
      | inr (x, e) ↦ absurd (ground arith)
    ];
  }

  bind-RunsOn :
      {A B : Type 0} (m : M L A) (k : A → M L B)
      → RunsOn m
      → ((a : A) → RunsOn (k a))
      → RunsOn (m >>= k)
  unfolding ◌>>=◌
  bind-RunsOn m k p q = record {
    at = λ w h. elim (Result-cases (m w).0) [
      | inl (a, e) ↦ (q a).at (m w).1 (rw e at h)
      | inr (x, e) ↦ p.at w (e ∙ ap err (failure_of x (rw e at h)))
    ];
  }

  read_trade-RunsOn : (id : String) → RunsOn {L = L} (read_trade id)
  unfolding read_trade
  read_trade-RunsOn id = search (bind-RunsOn, gets-RunsOn, or_throw-RunsOn, not_found-other)

  move-RunsOn :
      (now : ℕ) (tr : Trade) (actor : String) (to : TradeState) (kind : TradeEventType)
      → RunsOn {L = L} (move now tr actor to kind)
  unfolding move append_event
  move-RunsOn now tr actor to kind =
      search (bind-RunsOn, modify-RunsOn, if-RunsOn, pure-RunsOn, read_trade-RunsOn)

  apply-RunsOn :
      (now : ℕ) (tr : Trade) (actor : String) (to : TradeState)
      → RunsOn {L = L} (apply now tr actor to)
  unfolding apply apply_as
  apply-RunsOn now tr actor to = elim (Option-cases (can_transition tr.state to)) [
    | inl e ↦ rw (e, apply, apply_as) (throw-RunsOn TradeError.illegal_state illegal-other)
    | inr (kind, e) ↦ rw (e, apply, apply_as) (move-RunsOn now tr actor to kind)
  ]

  confirm_requests-RunsOn :
      (now : ℕ) (trade_id : String) (rs : List SettlementRequest) (current sig : String)
      → RunsOn {L = L} (confirm_requests now trade_id rs current sig)
  unfolding confirm_requests
  confirm_requests-RunsOn now trade_id rs current sig =
      search (bind-RunsOn, write-RunsOn, modify-RunsOn, if-RunsOn, pure-RunsOn)

  refuse-RunsOn : (now : ℕ) (tr : Trade) (v : VerifyError) → RunsOn {L = L} (refuse now tr v)
  unfolding refuse
  refuse-RunsOn now tr underivable =
      throw-RunsOn (TradeError.verdict underivable) (verdict-other underivable)
  refuse-RunsOn now tr mismatch =
      bind-RunsOn (apply now tr tr.buyer_agent_id TradeState.disputed) _
        (apply-RunsOn now tr tr.buyer_agent_id TradeState.disputed)
        (λ t. throw-RunsOn (TradeError.verdict mismatch) (verdict-other mismatch))

  terms_of-RunsOn : (d : SettlementDeps) (tr : Trade) → RunsOn {L = L} (lift (terms_of d tr))
  unfolding lift
  terms_of-RunsOn d tr = record { at = λ w h. ground arith }

module _ (api : LedgerApi) where
  open api use {State}

  issue_settled-RunsOn :
      (d : SettlementDeps) (now : ℕ) (tr : Trade) (sig : String)
      → RunsOn (issue_settled api d now tr sig)
  unfolding issue_settled
  issue_settled-RunsOn d now tr sig = record { at = λ w h. absurd (ground arith) }

  settle-RunsOn :
      (d : SettlementDeps) (now : ℕ) (tr : Trade) (rs : List SettlementRequest)
      (current sig : String)
      → RunsOn (settle api d now tr rs current sig)
  unfolding settle conclude_settled
  settle-RunsOn d now tr rs current sig = search (
    bind-RunsOn, confirm_requests-RunsOn, apply-RunsOn, issue_settled-RunsOn, write-RunsOn,
    pure-RunsOn,
  )

  settle_landed-RunsOn :
      (d : SettlementDeps) (now : ℕ) (tr : Trade) (rs : List SettlementRequest)
      (current sig : String) (tx : Option Transaction)
      → RunsOn (settle_landed api d now tr rs current sig tx)
  unfolding settle_landed
  settle_landed-RunsOn d now tr rs current sig tx =
      bind-RunsOn (lift (terms_of d tr)) _ (terms_of-RunsOn d tr) (λ t.
        elim (Result-cases (d.verify t tx)) [
          | inl (u, e) ↦ rw e (settle-RunsOn d now tr rs current sig)
          | inr (v, e) ↦ rw e (refuse-RunsOn now tr v)
        ])

  -- The report of a failed transaction is true.
  pub settle_fetched-failed :
      (d : SettlementDeps) (now : ℕ) (tr : Trade) (rs : List SettlementRequest)
      (current sig : String) (tx : Option Transaction) (failed : Bool) (w : World State)
      → (settle_fetched api d now tr rs current sig (tx, failed) w).0 ≡ err settlement_failed
      → failed ≡ true
  unfolding settle_fetched check_request_cluster
  settle_fetched-failed d now tr rs current sig tx true w h = refl
  settle_fetched-failed d now tr rs current sig tx false w h = absurd (
      (bind-RunsOn (lift (check_request_cluster d.cluster rs current)) _
          (lift-RunsOn (check_request_cluster d.cluster rs current)
            (check_request_cluster-other d.cluster rs current))
          (λ u. settle_landed-RunsOn d now tr rs current sig tx)).at
        w h)
