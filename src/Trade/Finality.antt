-- ===== src/Trade/Finality.antt =====
-- Where the calls of internal/trade/trade.go can take a trade.
use vtessera.Common.{
  ℕ, ◌≡◌, ◌≢◌, refl, sym, ap, subst, ◌∙◌, true, some, String, str_eq, eq_iff, ok, arith, inl, inr,
  Bool-cases,
}
use vtessera.Domain.{Trade, TradeState, TradeEventType, state_eq, terminal}
use vtessera.Store.{Db, create_trade, append_trade_event, is_in_state}
use vtessera.Store.Query.{exists_by}
use vtessera.Store.Settlement.Open.{RequestWrite-apart}
use vtessera.Trade.Machine.{can_transition}
use vtessera.Trade.Machine.Lifecycle.{Reaches, Moves, here, next, can_transition_sound}
use vtessera.Trade.LedgerApi.{LedgerApi}
use vtessera.Trade.Monad.{Service, World}
use vtessera.Trade.Service.Rows.{
  state_of, moved_rows, state_eq-eq, state_of-unmoved, state_of-moved, state_of-kept,
  state_of-append_old,
}
use vtessera.Trade.Service.Invariant.{IsKept, moved_db}
use vtessera.Trade.Audit.{moved_db-changed, moved_db-unchanged, create_trade-ok}
use vtessera.Trade.Steps.{Steps, Steps-kept}

Reaches-then : {s t u : TradeState} → Reaches s t → Moves t u → Reaches s u
Reaches-then here m = next m here
Reaches-then (next n r) m = next n (Reaches-then r m)

-- The trade is there, in a state that the table leads to from `s`.
abbrev HasReached : String → TradeState → Db → Type 0
HasReached id s db = (t : TradeState) × (state_of id db.trades ≡ some t) × Reaches s t

moved_rows-HasReached :
    (now : ℕ) (id j : String) (from to s : TradeState) (implied : TradeEventType) (db : Db)
    → can_transition from to ≡ some implied
    → HasReached j s db
    → (u : TradeState) × (state_of j (moved_rows id from to now db.trades) ≡ some u) × Reaches s u
moved_rows-HasReached now id j from to s implied db h (t, e, r) = elim (Bool-cases (str_eq id j)) [
  | inr other ↦ (t, state_of-unmoved id j from to now db.trades other ∙ e, r)
  | inl same ↦ elim (Bool-cases (state_eq t from)) [
    | inr differs ↦ (t, state_of-kept id j from to t now db.trades e differs, r)
    | inl agrees ↦
        let at : t ≡ from = state_eq-eq t from agrees in
        let same_id : id ≡ j = ground (arith, eq_iff id j) in
        (
          to,
          subst (λ i. state_of j (moved_rows i from to now db.trades) ≡ some to) (sym same_id)
              (state_of-moved j from to now db.trades (e ∙ ap some at)),
          Reaches-then r (implied, ap (λ x. can_transition x to) at ∙ h),
        )
  ]
]

moved_db-HasReached :
    (j : String) (s : TradeState) (now : ℕ) (id actor : String) (from to : TradeState)
    (kind implied : TradeEventType) (db : Db)
    → can_transition from to ≡ some implied
    → HasReached j s db
    → HasReached j s (moved_db now id actor from to kind db)
moved_db-HasReached j s now id actor from to kind implied db h p =
    elim (Bool-cases (exists_by (is_in_state id from) db.trades)) [
      | inr e ↦ subst (HasReached j s) (sym (moved_db-unchanged now id actor from to kind db e)) p
      | inl e ↦
          subst (HasReached j s) (sym (moved_db-changed now id actor from to kind db e))
            (moved_rows-HasReached now id j from to s implied db h p)
    ]

opened-HasReached :
    (j : String) (s : TradeState) (key : String) (t : Trade) (db db' : Db)
    → create_trade db t key ≡ ok db'
    → HasReached j s db
    → (u : TradeState) × (state_of j db'.trades ≡ some u) × Reaches s u
opened-HasReached j s key t db db' made (u, e, r) =
    let (_, rows, _) = create_trade-ok db db' t key made in
    (u, rw rows (state_of-append_old j db.trades (record t { idempotency_key = key }) e), r)

HasReached-IsKept : (j : String) (s : TradeState) → IsKept (HasReached j s)
unfolding append_trade_event
HasReached-IsKept j s = record {
  moves = λ now id actor from to kind implied db h k p.
      moved_db-HasReached j s now id actor from to kind implied db h p;
  opens = λ now actor key t db db' h made p. opened-HasReached j s key t db db' made p;
  ignores = λ db db' e f g (t, h, r). (t, rw e h, r);
  requests = λ w (t, h, r). (t, rw (RequestWrite-apart w).0 h, r);
}

-- After any calls, in any order, each of which runs whole, a trade that was there is there, in a state that the table of
-- transitions leads to from the one that it was in.
pub Steps-Reaches :
    (api : LedgerApi) (svc : Service) (w v : World api.State) (id : String) (s : TradeState)
    → Steps api svc w v
    → state_of id w.db.trades ≡ some s
    → (t : TradeState) × (state_of id v.db.trades ≡ some t) × Reaches s t
Steps-Reaches api svc w v id s steps e =
    Steps-kept api svc (HasReached-IsKept id s) steps (s, e, here)

Reaches-final :
    {s t : TradeState} → Reaches s t → terminal s ≡ true → s ≢ TradeState.disputed → t ≡ s
Reaches-final here h k = refl
Reaches-final (next {s = s} {t = t} (kind, e) r) h k =
    absurd (ground (arith, (can_transition_sound s t e).1))

-- A trade that has ended, and not in a dispute, never changes its state again, whoever calls what.
pub Steps-final :
    (api : LedgerApi) (svc : Service) (w v : World api.State) (id : String) (s : TradeState)
    → Steps api svc w v
    → state_of id w.db.trades ≡ some s
    → terminal s ≡ true
    → s ≢ TradeState.disputed
    → state_of id v.db.trades ≡ some s
Steps-final api svc w v id s steps e h k =
    let (t, f, r) = Steps-Reaches api svc w v id s steps e in f ∙ ap some (Reaches-final r h k)
