-- ===== src/Trade/Reconcile/Conclusions.antt =====
-- internal/trade/reconcile.go: what is so when the worker reports a trade as settled or as expired.
use vtessera.Common.{
  ℕ, ◌≡◌, ◌≤◌, refl, ap, ap₂, ◌∙◌, true, false, Option, none, some, List, [], ◌∷◌, ◌++◌, String, ok,
  err, arith, inl, inr, Result-cases, Bool-cases, Option-cases,
}
use vtessera.Domain.{Trade, TradeState, SettlementRequest, onchain, mode_eq, is_issued}
use vtessera.Settlement.{Transaction}
use vtessera.Store.Query.{filter_by}
use vtessera.Store.Settlement.{list_settlement_requests}
use vtessera.Trade.LedgerApi.{LedgerApi}
use vtessera.Trade.Monad.{
  TradeError, SettlementDeps, Fetched, World, landed, absent, unreachable, ◌>>=◌, pure, throw, lift,
  or_throw, gets, settlement_failed,
}
use vtessera.Trade.Settle.{check_request_cluster, settle_fetched}
use vtessera.Trade.Settle.Verdict.{IsProved}
use vtessera.Trade.Reconcile.{
  Outcome, settled, expired, pending, disputed, expired_cluster_mismatch, caught, outcome_of,
  has_lapsed, latest_signed, latest_request, reconcile_fetched, reconcile_signed, reconcile_trade,
  reconcile_unsigned, withdraw,
}
use vtessera.Trade.Reconcile.Payments.{
  is_signed, IsNewest, latest_signed-none, latest_signed-IsNewest, reconcile_trade-settles,
}
use vtessera.Trade.Reconcile.Lapses.{settle_fetched-failed}

-- The chain has the transaction of the newest signature, it ran, and it settles the terms.
pub record IsPaid (d : SettlementDeps) (now : ℕ) (tr : Trade) (rs : List SettlementRequest)
    : Type 0 where
  pub on_chain : mode_eq tr.settlement_mode onchain ≡ true
  pub was_pending : tr.state ≡ TradeState.settlement_pending
  pub signed : SettlementRequest
  pub newest : IsNewest rs signed
  pub ours : check_request_cluster d.cluster rs signed.id ≡ ok tt
  pub sig : String
  pub parsed : d.signature signed.signature ≡ some sig
  pub tx : Option Transaction
  pub ran : d.transaction now 1 sig ≡ landed tx false
  pub proved : IsProved d tr tx

-- Still issued, and its time is over.
pub record IsOverdue (now : ℕ) (r : SettlementRequest) : Type 0 where
  pub issued : is_issued r.status ≡ true
  pub passed : r.expires_at ≤ now

-- Why no payment can come: the newest signature failed on the chain; or the chain does not know it
-- and its request is overdue; or nothing is signed and the last request is overdue.
pub data IsLost (d : SettlementDeps) (now : ℕ) (rs : List SettlementRequest) : Type 0 where
  reverted :
      (signed : SettlementRequest) (sig : String) (tx : Option Transaction)
      → IsNewest rs signed
      → d.signature signed.signature ≡ some sig
      → d.transaction now 1 sig ≡ landed tx true
      → IsLost d now rs
  unknown :
      (signed : SettlementRequest) (sig : String)
      → IsNewest rs signed
      → d.signature signed.signature ≡ some sig
      → d.transaction now 1 sig ≡ absent
      → IsOverdue now signed
      → IsLost d now rs
  unsigned :
      (before : List SettlementRequest) (last : SettlementRequest)
      → rs ≡ before ++ (last ∷ [])
      → filter_by is_signed rs ≡ []
      → IsOverdue now last
      → IsLost d now rs

-- What an outcome says; only that a trade is settled or expired says something here.
abbrev pub Concludes : SettlementDeps → ℕ → Trade → List SettlementRequest → Outcome → Type 0
Concludes d now tr rs settled = IsPaid d now tr rs
Concludes d now tr rs expired = (mode_eq tr.settlement_mode onchain ≡ true) × IsLost d now rs
Concludes d now tr rs _ = Unit

latest_request-none : (rs : List SettlementRequest) → latest_request rs ≡ none → rs ≡ []
unfolding latest_request
latest_request-none [] h = refl
latest_request-none (r ∷ rs) h = absurd (ground arith)

latest_request-last :
    (rs : List SettlementRequest) (last : SettlementRequest)
    → latest_request rs ≡ some last
    → (before : List SettlementRequest) × (rs ≡ before ++ (last ∷ []))
unfolding latest_request
latest_request-last [] last h = absurd (cc)
latest_request-last (r ∷ rs) last h = elim (Option-cases (latest_request rs)) [
  | inl e ↦
      let mine : r ≡ last = ground arith in
      ([], ap₂ (λ x xs. x ∷ xs) mine (latest_request-none rs e))
  | inr (l, e) ↦
      let (before, split) = latest_request-last rs last (ground arith) in
      (r ∷ before, ap (λ xs. r ∷ xs) split)
]

has_lapsed-IsOverdue : (now : ℕ) (r : SettlementRequest) → has_lapsed now r ≡ true → IsOverdue now r
has_lapsed-IsOverdue now r h = record { issued = ground arith; passed = ground arith }

outcome_of-expired : (e : TradeError) → outcome_of e ≡ ok expired → e ≡ settlement_failed
unfolding outcome_of
outcome_of-expired e h = ground arith

reconcile_unsigned-expired :
    {L : Type 0} (now : ℕ) (tr : Trade) (last : Option SettlementRequest) (w : World L)
    → (reconcile_unsigned now tr last w).0 ≡ ok expired
    → (r : SettlementRequest) × (last ≡ some r) × IsOverdue now r
unfolding reconcile_unsigned pure
reconcile_unsigned-expired now tr none w h = absurd (ground arith)
reconcile_unsigned-expired now tr (some last) w h = elim (Bool-cases (has_lapsed now last)) [
  | inl e ↦ (last, refl, has_lapsed-IsOverdue now last e)
  | inr e ↦ absurd (ground arith)
]

module _ (api : LedgerApi) where
  open api use {State}

  reconcile_fetched-expired :
      (d : SettlementDeps) (now : ℕ) (tr : Trade) (rs : List SettlementRequest)
      (signed : SettlementRequest) (sig : String) (w : World State)
      → IsNewest rs signed
      → d.signature signed.signature ≡ some sig
      → (f : Fetched) → d.transaction now 1 sig ≡ f
      → (reconcile_fetched api d now tr rs signed sig f w).0 ≡ ok expired
      → IsLost d now rs
  unfolding reconcile_fetched caught throw pure lift ◌>>=◌
  reconcile_fetched-expired d now tr rs signed sig w newest parsed absent answer h =
      elim (Bool-cases (has_lapsed now signed)) [
        | inl e ↦ IsLost.unknown signed sig newest parsed answer (has_lapsed-IsOverdue now signed e)
        | inr e ↦ absurd (ground arith)
      ]
  reconcile_fetched-expired d now tr rs signed sig w newest parsed unreachable answer h =
      absurd (cc)
  reconcile_fetched-expired d now tr rs signed sig w newest parsed (landed tx failed) answer h =
      elim (Result-cases (settle_fetched api d now tr rs signed.id sig (tx, failed) w).0) [
        | inl (x, e) ↦ absurd (ground arith)
        | inr (x, e) ↦
            let same = outcome_of-expired x (ground arith) in
            IsLost.reverted signed sig tx newest parsed (
              answer
              ∙ ap (landed tx) (
                  settle_fetched-failed api d now tr rs signed.id sig tx failed w
                    (e ∙ ap err same)))
      ]

  reconcile_signed-expired :
      (d : SettlementDeps) (now : ℕ) (t : Trade) (rs : List SettlementRequest)
      (signed : SettlementRequest) (w : World State)
      → IsNewest rs signed
      → (reconcile_signed api d now t rs signed w).0 ≡ ok expired
      → IsLost d now rs
  unfolding reconcile_signed withdraw throw pure or_throw ◌>>=◌
  reconcile_signed-expired d now t rs signed w newest h =
      elim (Result-cases (check_request_cluster d.cluster rs signed.id)) [
        | inr (x, e) ↦ absurd (ground arith)
        | inl (u, e) ↦ elim (Option-cases (d.signature signed.signature)) [
          | inl none_there ↦ absurd (ground arith)
          | inr (sig, parsed) ↦
              reconcile_fetched-expired d now t rs signed sig w newest parsed
                (d.transaction now 1 sig) refl (rw (e, reconcile_signed, parsed) at h)
        ]
      ]

  reconcile_trade-expires :
      (d : SettlementDeps) (now : ℕ) (tr : Trade) (w : World State)
      → (reconcile_trade api d now tr w).0 ≡ ok expired
      → (mode_eq tr.settlement_mode onchain ≡ true)
        × IsLost d now (list_settlement_requests w.db tr.id)
  unfolding reconcile_trade gets throw pure ◌>>=◌
  reconcile_trade-expires d now tr w h =
      let rs = list_settlement_requests w.db tr.id in
      elim (Bool-cases (mode_eq tr.settlement_mode onchain)) [
        | inr e ↦ absurd (ground arith)
        | inl on_chain ↦ elim (Option-cases (latest_signed rs)) [
          | inl e ↦
              let (last, found, overdue) =
                reconcile_unsigned-expired now tr (latest_request rs) w (rw (on_chain, e) at h) in
              let (before, split) = latest_request-last rs last found in
              (on_chain, IsLost.unsigned before last split (latest_signed-none rs e) overdue)
          | inr (signed, e) ↦ (
            on_chain,
            reconcile_signed-expired d now tr rs signed w (latest_signed-IsNewest rs signed e)
                (rw (on_chain, e) at h),
          )
        ]
      ]

  -- An outcome that the worker reports says what is so: a trade is settled where it is a pending
  -- on-chain trade, the last of its requests with a signature is of this cluster, and the chain has
  -- the transaction of that signature, which ran and is proved to settle the terms; it is expired
  -- where it is an on-chain trade and the transaction of that signature failed on the chain, or is
  -- not known there and the request is still issued with its time over, or no request is signed and
  -- the last is still issued with its time over. Of other outcomes this says nothing.
  pub reconcile_trade-Concludes :
      (d : SettlementDeps) (now : ℕ) (tr : Trade) (w : World State) (o : Outcome)
      → (reconcile_trade api d now tr w).0 ≡ ok o
      → Concludes d now tr (list_settlement_requests w.db tr.id) o
  reconcile_trade-Concludes d now tr w settled h =
      let (on_chain, was_pending, signed, newest, ours, sig, parsed, tx, ran, proved) =
        reconcile_trade-settles api d now tr w h in
      record {
        on_chain = on_chain;
        was_pending = was_pending;
        signed = signed;
        newest = newest;
        ours = ours;
        sig = sig;
        parsed = parsed;
        tx = tx;
        ran = ran;
        proved = proved;
      }
  reconcile_trade-Concludes d now tr w expired h = reconcile_trade-expires d now tr w h
  reconcile_trade-Concludes d now tr w pending h = tt
  reconcile_trade-Concludes d now tr w disputed h = tt
  reconcile_trade-Concludes d now tr w expired_cluster_mismatch h = tt
