-- ===== src/Trade/Methods/Lapse.antt =====
-- When internal/trade/trade.go lets a party out of an accepted trade: `Cancel`.
use vtessera.Common.{
  ℕ, ◌+◌, ◌≤◌, ◌≡◌, refl, sym, ap, ◌∙◌, true, false, some, String, ok, arith, inl, inr, Bool-cases,
  Option-cases,
}
use vtessera.Domain.{Trade, TradeState, state_eq, party}
use vtessera.Store.{get_trade, trade_acceptance}
use vtessera.Trade.Monad.{Service, World, ◌>>=◌}
use vtessera.Trade.Monad.Runs.{throw_if-then, gets-then, bind-ok, bind-passed}
use vtessera.Trade.Service.{party_trade, read_trade, live_settlement, acceptance_deadline}
use vtessera.Trade.Methods.{cancel, cancel_open, may_lapse}

-- A trade that is there is returned to a party of it.
pub party_trade-found :
    {L : Type 0} (actor id : String) (w : World L) (t u : Trade)
    → get_trade w.db id ≡ some t
    → (party_trade actor id w).0 ≡ ok u
    → (party t actor ≡ true) × (party_trade actor id w ≡ (ok t, w))
unfolding party_trade read_trade ◌>>=◌
party_trade-found actor id w t u found h = elim (Bool-cases (party t actor)) [
  | inr k ↦ absurd (ground arith)
  | inl k ↦ (k, rw (found, k) refl)
]

-- The deadline of an accepted trade is its first acceptance and the time allowed.
may_lapse-ok :
    {L : Type 0} (svc : Service) (now : ℕ) (t : Trade) (w : World L)
    → (may_lapse svc now t w).0 ≡ ok tt
    → state_eq t.state TradeState.accepted ≡ true
    → (at : ℕ) × (trade_acceptance w.db t.id ≡ some at) × (at + svc.accept_ttl ≤ now)
unfolding may_lapse acceptance_deadline ◌>>=◌
may_lapse-ok svc now t w h k = elim (Option-cases (trade_acceptance w.db t.id)) [
  | inl e ↦ absurd (ground arith)
  | inr (at, e) ↦ (at, e, ground arith)
]

not_yet_cancelled :
    (s : TradeState)
    → state_eq s TradeState.accepted ≡ true
    → state_eq s TradeState.cancelled ≡ false
unfolding state_eq
not_yet_cancelled s h = ground arith

cancel_open-lapsed :
    {L : Type 0} (svc : Service) (now : ℕ) (actor id : String) (tr : Trade) (w : World L)
    {t : Trade}
    → state_eq tr.state TradeState.accepted ≡ true
    → (cancel_open svc now actor id tr w).0 ≡ ok t
    → (live_settlement svc w.db now id ≡ false)
      × ((at : ℕ) × (trade_acceptance w.db tr.id ≡ some at) × (at + svc.accept_ttl ≤ now))
unfolding cancel_open
cancel_open-lapsed svc now actor id tr w accepted h =
    let e = gets-then _ _ w in
    let (idle, f) = throw_if-then _ _ _ w (sym (ap (λ x. x.0) e) ∙ h) in
    let (_, lapsed, _) = bind-ok _ _ w (sym (ap (λ x. x.0) (e ∙ f)) ∙ h) in
    (idle, may_lapse-ok svc now tr w lapsed accepted)

-- A party can cancel an accepted trade only once its deadline, the first acceptance and the time
-- allowed, is past, and only while no settlement transaction of it is live.
pub cancel-lapsed :
    {L : Type 0} (svc : Service) (now : ℕ) (actor id : String) (w : World L) (tr t : Trade)
    → get_trade w.db id ≡ some tr
    → state_eq tr.state TradeState.accepted ≡ true
    → (cancel svc now actor id w).0 ≡ ok t
    → (party tr actor ≡ true)
      × (live_settlement svc w.db now id ≡ false)
      × ((at : ℕ) × (trade_acceptance w.db tr.id ≡ some at) × (at + svc.accept_ttl ≤ now))
unfolding cancel
cancel-lapsed svc now actor id w tr t found accepted h =
    let (u, read, _) = bind-ok (party_trade actor id) _ w h in
    let (in_it, same) = party_trade-found actor id w tr u found read in
    let entered = bind-passed (party_trade actor id) _ w tr same in
    let run = sym (ap (λ x. x.0) entered) ∙ h in
    let rest = rw (not_yet_cancelled tr.state accepted) at run in
    let (idle, lapsed) = cancel_open-lapsed svc now actor id tr w accepted rest in
    (in_it, idle, lapsed)
