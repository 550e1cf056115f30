-- ===== src/Trade/Reconcile/Payments.antt =====
-- internal/trade/reconcile.go: what the worker settles.
use vtessera.Common.{
  ℕ, ◌≡◌, ◌≢◌, refl, ap, Bool, true, false, not, Option, none, some, List, [], ◌∷◌, ◌++◌, String,
  str_eq, ok, arith, inl, inr, Result-cases, Bool-cases, Option-cases,
}
use vtessera.Domain.{Trade, TradeState, SettlementRequest, onchain, mode_eq}
use vtessera.Settlement.{Transaction}
use vtessera.Store.Query.{filter_by}
use vtessera.Store.Settlement.{list_settlement_requests}
use vtessera.Trade.LedgerApi.{LedgerApi}
use vtessera.Trade.Monad.{
  TradeError, SettlementDeps, Fetched, World, landed, absent, unreachable, ◌>>=◌, pure, throw, lift,
  or_throw, gets,
}
use vtessera.Trade.Settle.{check_request_cluster, settle_fetched}
use vtessera.Trade.Settle.Verdict.{IsProved, settle_fetched-ok}
use vtessera.Trade.Reconcile.{
  settled, caught, outcome_of, has_lapsed, latest_signed, reconcile_fetched, reconcile_signed,
  reconcile_trade, reconcile_lapsed, withdraw, reconcile_unsigned, latest_request,
}

abbrev pub is_signed : SettlementRequest → Bool
is_signed r = not (str_eq r.signature "")

-- The last of the requests that carry a signature.
pub record IsNewest (rs : List SettlementRequest) (signed : SettlementRequest) : Type 0 where
  pub before : List SettlementRequest
  pub after : List SettlementRequest
  pub split : rs ≡ before ++ (signed ∷ after)
  pub carries : is_signed signed ≡ true
  pub unsigned_after : filter_by is_signed after ≡ []

pub latest_signed-none :
    (rs : List SettlementRequest) → latest_signed rs ≡ none → filter_by is_signed rs ≡ []
unfolding latest_signed filter_by
latest_signed-none [] h = refl
latest_signed-none (r ∷ rs) h = elim (Option-cases (latest_signed rs)) [
  | inl e ↦ ground (arith, latest_signed-none rs e)
  | inr (later, e) ↦ absurd (ground arith)
]

pub latest_signed-IsNewest :
    (rs : List SettlementRequest) (signed : SettlementRequest)
    → latest_signed rs ≡ some signed
    → IsNewest rs signed
unfolding latest_signed
latest_signed-IsNewest [] signed h = absurd (cc)
latest_signed-IsNewest (r ∷ rs) signed h = elim (Option-cases (latest_signed rs)) [
  | inr (later, e) ↦
      let found = latest_signed-IsNewest rs signed (ground arith) in
      record {
        before = r ∷ found.before;
        after = found.after;
        split = ap (λ xs. r ∷ xs) found.split;
        carries = found.carries;
        unsigned_after = found.unsigned_after;
      }
  | inl e ↦
      let mine : r ≡ signed = ground arith in
      record {
        before = [];
        after = rs;
        split = ap (λ x. x ∷ rs) mine;
        carries = ground arith;
        unsigned_after = latest_signed-none rs e;
      }
]

outcome_of-unsettled : (e : TradeError) → outcome_of e ≢ ok settled
unfolding outcome_of
outcome_of-unsettled e h = ground arith

reconcile_lapsed-unsettled :
    {L : Type 0} (now : ℕ) (tr : Trade) (w : World L) → (reconcile_lapsed now tr w).0 ≢ ok settled
unfolding reconcile_lapsed caught ◌>>=◌
reconcile_lapsed-unsettled now tr w h = ground arith

reconcile_unsigned-unsettled :
    {L : Type 0} (now : ℕ) (tr : Trade) (last : Option SettlementRequest) (w : World L)
    → (reconcile_unsigned now tr last w).0 ≢ ok settled
unfolding reconcile_unsigned pure
reconcile_unsigned-unsettled now tr none w h = absurd (cc)
reconcile_unsigned-unsettled now tr (some last) w h = elim (Bool-cases (has_lapsed now last)) [
  | inl e ↦ reconcile_lapsed-unsettled now tr w (rw e at h)
  | inr e ↦ absurd (ground arith)
]

module _ (api : LedgerApi) where
  open api use {State}

  reconcile_fetched-settled :
      (d : SettlementDeps) (now : ℕ) (tr : Trade) (rs : List SettlementRequest)
      (signed : SettlementRequest) (sig : String) (f : Fetched) (w : World State)
      → (reconcile_fetched api d now tr rs signed sig f w).0 ≡ ok settled
      → (tx : Option Transaction) × (f ≡ landed tx false)
        × IsProved d tr tx
        × (tr.state ≡ TradeState.settlement_pending)
  unfolding reconcile_fetched caught throw pure lift ◌>>=◌
  reconcile_fetched-settled d now tr rs signed sig absent w h =
      elim (Bool-cases (has_lapsed now signed)) [
        | inl e ↦ absurd (reconcile_lapsed-unsettled now tr w (rw e at h))
        | inr e ↦ absurd (ground arith)
      ]
  reconcile_fetched-settled d now tr rs signed sig unreachable w h = absurd (cc)
  reconcile_fetched-settled d now tr rs signed sig (landed tx failed) w h =
      elim (Result-cases (settle_fetched api d now tr rs signed.id sig (tx, failed) w).0) [
        | inr (x, e) ↦ absurd (outcome_of-unsettled x (ground arith))
        | inl ((t, r), e) ↦
            let (_, ran, proved, was_pending, _) =
              settle_fetched-ok api d now tr rs signed.id sig tx failed w t r e in
            (tx, ap (landed tx) ran, proved, was_pending)
      ]

  reconcile_signed-settled :
      (d : SettlementDeps) (now : ℕ) (t : Trade) (rs : List SettlementRequest)
      (signed : SettlementRequest) (w : World State)
      → (reconcile_signed api d now t rs signed w).0 ≡ ok settled
      → (check_request_cluster d.cluster rs signed.id ≡ ok tt)
        × (sig : String) × (d.signature signed.signature ≡ some sig)
        × (tx : Option Transaction) × (d.transaction now 1 sig ≡ landed tx false)
        × IsProved d t tx
        × (t.state ≡ TradeState.settlement_pending)
  unfolding reconcile_signed withdraw throw pure or_throw ◌>>=◌
  reconcile_signed-settled d now t rs signed w h =
      elim (Result-cases (check_request_cluster d.cluster rs signed.id)) [
        | inr (x, e) ↦ absurd (ground arith)
        | inl (u, e) ↦ elim (Option-cases (d.signature signed.signature)) [
          | inl none_there ↦ absurd (ground arith)
          | inr (sig, parsed) ↦
              let (tx, ran, proved, was_pending) =
                reconcile_fetched-settled d now t rs signed sig (d.transaction now 1 sig) w
                  (rw (e, reconcile_signed, parsed) at h) in
              (e, sig, parsed, tx, ran, proved, was_pending)
        ]
      ]

  -- What the worker settles is a pending on-chain trade whose last request with a signature is of this
  -- cluster, and the transaction that the chain has for that signature ran and is proved to settle the
  -- terms of the trade.
  pub reconcile_trade-settles :
      (d : SettlementDeps) (now : ℕ) (tr : Trade) (w : World State)
      → (reconcile_trade api d now tr w).0 ≡ ok settled
      → (mode_eq tr.settlement_mode onchain ≡ true)
        × (tr.state ≡ TradeState.settlement_pending)
        × (signed : SettlementRequest) × IsNewest (list_settlement_requests w.db tr.id) signed
        × (check_request_cluster d.cluster (list_settlement_requests w.db tr.id) signed.id ≡ ok tt)
        × (sig : String) × (d.signature signed.signature ≡ some sig)
        × (tx : Option Transaction) × (d.transaction now 1 sig ≡ landed tx false)
        × IsProved d tr tx
  unfolding reconcile_trade reconcile_unsigned gets throw pure ◌>>=◌
  reconcile_trade-settles d now tr w h =
      let rs = list_settlement_requests w.db tr.id in
      elim (Bool-cases (mode_eq tr.settlement_mode onchain)) [
        | inr e ↦ absurd (ground arith)
        | inl on_chain ↦ elim (Option-cases (latest_signed rs)) [
          | inl e ↦
              absurd
                (reconcile_unsigned-unsettled now tr (latest_request rs) w (rw (on_chain, e) at h))
          | inr (signed, e) ↦
              let (ours, sig, parsed, tx, ran, proved, was_pending) =
                reconcile_signed-settled d now tr rs signed w (rw (on_chain, e) at h) in
              (
                on_chain,
                was_pending,
                signed,
                latest_signed-IsNewest rs signed e,
                ours,
                sig,
                parsed,
                tx,
                ran,
                proved,
              )
        ]
      ]
