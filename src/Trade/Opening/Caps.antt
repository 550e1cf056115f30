-- ===== src/Trade/Opening/Caps.antt =====
-- `Create` of internal/trade/trade.go against the caps.
use vtessera.Common.{
  ℕ, ◌+◌, ◌-◌, pos, str_eq, ◌≤◌, ◌≡◌, refl, ap, sym, subst, ◌∙◌, Bool, true, false, Option, none,
  some, [], ◌∷◌, ◌++◌, String, ok, arith, inl, inr, Result-cases,
}
use vtessera.Limits.{Policy, cap_micro, effective, new_price_cache}
use vtessera.Limits.Cache.{new_price_cache-IsCoherent}
use vtessera.Store.Spend.{committed_spend_since, spend_row}
use vtessera.Domain.{Offer, Trade, TradeEvent, TradeState, TradeEventType, SettlementMode}
use vtessera.Store.{Db, create_trade, append_trade_event, get_agent_limits}
use vtessera.Trade.Monad.{Service, World, ◌>>=◌, pure}
use vtessera.Trade.Monad.Runs.{throw_if-then, lift-then, gets-then, or_throw-then}
use vtessera.Trade.Spend.{check_spend, committed_spend, committed_spend_usd, policy_at, sum_rows}
use vtessera.Trade.Spend.Check.{IsWithin, check_spend-IsWithin}
use vtessera.Trade.Spend.Rows.{committed_spend_since-new}
use vtessera.Trade.Spend.Sums.{total_value, total_value-append, sum_rows-total}
use vtessera.Trade.Service.{append_event, default_mode}
use vtessera.Trade.Service.Invariant.{event_of}
use vtessera.Trade.Opening.{create, create_unless, create_from, new_trade, buyer_of, create_guards}

module _ {L : Type 0} (svc : Service) (now : ℕ) (id actor : String) (offer : Offer)
    (mode : SettlementMode) (key : String) where
  -- A trade that is created has passed the check of its buyer's caps, is in the tables, and has its
  -- first event.
  pub create_from-ok :
      (w : World L) (t : Trade × Bool)
      → (create_from svc now id actor offer mode key w).0 ≡ ok t
      → (t ≡ (new_trade now id offer mode actor, true))
        × (create_guards svc w.db now actor offer mode ≡ ok tt)
        × ((db : Db) × (create_trade w.db (new_trade now id offer mode actor) key ≡ ok db)
            × ((create_from svc now id actor offer mode key w).1.db
                ≡ append_trade_event db
                    (event_of now id actor TradeEventType.proposed none TradeState.proposed)))
  unfolding create_from append_event ◌>>=◌
  create_from-ok w t h = elim (Result-cases (create_guards svc w.db now actor offer mode)) [
    | inr (x, e) ↦ absurd (ground arith)
    | inl (u, g) ↦ elim (Result-cases (create_trade w.db (new_trade now id offer mode actor) key)) [
      | inl (db, e) ↦ (ground arith, ground arith, (db, e, ground arith))
      | inr (x, e) ↦ absurd (ground arith)
    ]
  ]

-- The guards end in the check of the caps.
create_guards-spend :
    (svc : Service) (db : Db) (now : ℕ) (actor : String) (offer : Offer) (mode : SettlementMode)
    → create_guards svc db now actor offer mode ≡ ok tt
    → check_spend svc db now (buyer_of actor offer) offer.price_amount offer.price_mint "" ≡ ok tt
unfolding create_guards
create_guards-spend svc db now actor offer mode h = ground arith

-- What `CreateTrade` leaves as it was, and what it adds.
create_trade-rows :
    (db db' : Db) (t : Trade) (key : String)
    → create_trade db t key ≡ ok db'
    → (db'.trades ≡ db.trades ++ (record t { idempotency_key = key } ∷ []))
      × (db'.trade_events ≡ db.trade_events)
      × (db'.agent_limits ≡ db.agent_limits)
unfolding create_trade
create_trade-rows db db' t key h = ground arith

policy_at-limits :
    (svc : Service) (db db' : Db) (p : Policy)
    → db'.agent_limits ≡ db.agent_limits
    → policy_at svc db' p ≡ policy_at svc db p
unfolding policy_at get_agent_limits
policy_at-limits svc db db' p h = ap (λ rows. policy_at svc (record db { agent_limits = rows }) p) h

policy_at-window : (svc : Service) (db : Db) (p : Policy) → (policy_at svc db p).window ≡ p.window
unfolding policy_at
policy_at-window svc db p = ground arith

committed_spend_usd-limited :
    (svc : Service) (db : Db) (now window : ℕ) (p : Policy) (buyer : String)
    → svc.limits ≡ some p
    → svc.has_limits_store ≡ true
    → p.window ≡ pos window
    → committed_spend_usd svc db now buyer
      ≡ sum_rows
          (new_price_cache (policy_at svc db p))
          0
          (committed_spend_since db buyer (now - window) "")
unfolding committed_spend_usd committed_spend
committed_spend_usd-limited svc db now window p buyer h stored windowed =
    ground (arith, policy_at-window svc db p)

committed_spend-stored :
    (svc : Service) (db : Db) (now window : ℕ) (p : Policy) (buyer : String)
    → svc.has_limits_store ≡ true
    → p.window ≡ pos window
    → committed_spend svc db now buyer (policy_at svc db p).window ""
      ≡ committed_spend_since db buyer (now - window) ""
unfolding committed_spend
committed_spend-stored svc db now window p buyer stored windowed =
    ground (arith, policy_at-window svc db p)

plain : (n : ℕ) → 0 + n ≡ n
plain n = omega arith

module _ (svc : Service) (p : Policy) (db after : Db) (now window : ℕ) (t : Trade)
    (e : TradeEvent) where
  -- A trade inside the caps, once it is in the tables, is inside them as committed spend.
  pub committed_after :
      svc.limits ≡ some p
      → svc.has_limits_store ≡ true
      → p.window ≡ pos window
      → after.trades ≡ db.trades ++ (t ∷ [])
      → after.trade_events ≡ db.trade_events ++ (e ∷ [])
      → after.agent_limits ≡ db.agent_limits
      → e.to_state ≡ TradeState.proposed
      → t.state ≡ TradeState.proposed
      → t.created_at ≡ now
      → str_eq t.id "" ≡ false
      → IsWithin svc db now (policy_at svc db p) t.buyer_agent_id t.amount t.mint ""
      → (total : ℕ) × (cap : ℕ) × (committed_spend_usd svc after now t.buyer_agent_id ≡ ok total)
        × (cap_micro (effective (policy_at svc after p) t.buyer_agent_id).per_day ≡ ok cap)
        × (total ≤ cap)
  unfolding new_price_cache
  committed_after limited stored windowed rows events kept opened state made named within =
      let policy = policy_at svc db p in
      let same : policy_at svc after p ≡ policy = policy_at-limits svc db after p kept in
      let old = committed_spend_since db t.buyer_agent_id (now - window) "" in
      let grown =
        committed_spend_since-new db after (now - window) t e rows events (rw opened refl)
          (omega arith) (rw state refl) named in
      let summed : total_value policy old ≡ ok within.committed =
        rw⁻¹ (committed_spend-stored svc db now window p t.buyer_agent_id stored windowed)
          within.summed in
      let total =
        total_value-append policy old (spend_row t) within.committed within.value summed
          within.priced in
      (
        within.committed + within.value,
        within.per_day_cap,
        committed_spend_usd-limited svc after now window p t.buyer_agent_id limited stored windowed
            ∙ rw (same, grown)
                (sum_rows-total policy (new_price_cache policy) 0 (within.committed + within.value)
                    (old ++ (spend_row t ∷ [])) (new_price_cache-IsCoherent policy) refl total
                    (omega (arith, within.exact))
                  ∙ ap ok (plain (within.committed + within.value))),
        rw same within.day_cap,
        omega (arith, within.inside_day),
      )

module _ {L : Type 0} (svc : Service) (now : ℕ) (id actor offer_id : String) (mode : SettlementMode)
    (key : String) where
  create_unless-new :
      (existing : Option Trade) (w : World L) (t : Trade)
      → (create_unless svc now id actor offer_id mode key existing w).0 ≡ ok (t, true)
      → (offer : Offer) × (create_unless svc now id actor offer_id mode key existing w
          ≡ create_from svc now id actor offer mode key w)
  unfolding create_unless pure
  create_unless-new (some u) w t h = absurd (ground arith)
  create_unless-new none w t h =
      let e = gets-then _ _ w in
      let (offer, _, f) = or_throw-then _ _ _ w (sym (ap (λ x. x.0) e) ∙ h) in (offer, e ∙ f)

-- A trade that `Create` calls new was made from an offer, with nothing written before.
create-new :
    {L : Type 0} (svc : Service) (now : ℕ) (id actor offer_id : String) (mode : SettlementMode)
    (key : String) (w : World L) (t : Trade)
    → (create svc now id actor offer_id mode key w).0 ≡ ok (t, true)
    → (offer : Offer) × (create svc now id actor offer_id mode key w
        ≡ create_from svc now id actor offer (default_mode mode) key w)
unfolding create
create-new svc now id actor offer_id mode key w t h =
    let (_, e) = throw_if-then _ _ _ w h in
    let (_, _, f) = lift-then _ _ w (sym (ap (λ x. x.0) e) ∙ h) in
    let all = e ∙ f ∙ gets-then _ _ w in
    let (offer, made) =
      create_unless-new svc now id actor offer_id (default_mode mode) key _ w t
        (sym (ap (λ x. x.0) all) ∙ h) in
    (offer, all ∙ made)

create_from-within :
    {L : Type 0} (svc : Service) (p : Policy) (now window : ℕ) (id actor : String) (offer : Offer)
    (mode : SettlementMode) (key : String) (w : World L) (t : Trade)
    → svc.limits ≡ some p
    → svc.has_limits_store ≡ true
    → p.window ≡ pos window
    → str_eq id "" ≡ false
    → (create_from svc now id actor offer mode key w).0 ≡ ok (t, true)
    → let after = (create_from svc now id actor offer mode key w).1.db in
      (total : ℕ) × (cap : ℕ) × (committed_spend_usd svc after now t.buyer_agent_id ≡ ok total)
      × (cap_micro (effective (policy_at svc after p) t.buyer_agent_id).per_day ≡ ok cap)
      × (total ≤ cap)
unfolding append_trade_event
create_from-within svc p now window id actor offer mode key w t limited stored windowed named h =
    let (returned, guards, (db, made, tables)) =
      create_from-ok svc now id actor offer mode key w (t, true) h in
    let (rows, events, kept) =
      create_trade-rows w.db db (new_trade now id offer mode actor) key made in
    let inside =
      check_spend-IsWithin svc w.db now p (buyer_of actor offer) offer.price_amount offer.price_mint
        "" limited (create_guards-spend svc w.db now actor offer mode guards) in
    let stored_trade = record (new_trade now id offer mode actor) { idempotency_key = key } in
    let event = event_of now id actor TradeEventType.proposed none TradeState.proposed in
    let grown = append_trade_event db event in
    subst
      (λ (u : Trade).
        (total : ℕ) × (cap : ℕ) × (committed_spend_usd svc
            (create_from svc now id actor offer mode key w).1.db now u.buyer_agent_id
          ≡ ok total)
        × (cap_micro
              (effective (policy_at svc (create_from svc now id actor offer mode key w).1.db p)
                u.buyer_agent_id).per_day
            ≡ ok cap)
        × (total ≤ cap))
      (sym (ap (λ (x : Trade × Bool). x.0) returned))
      (rw tables (
        committed_after svc p w.db grown now window stored_trade event limited stored windowed rows
          (ap (λ es. es ++ (event ∷ [])) events) kept refl refl refl named inside))

-- A trade that `Create` makes under caps leaves its buyer inside them: what the buyer has committed
-- by then, the new trade with it, has a sum that is exact, and is at most the cap of the window.
pub create-within_caps :
    {L : Type 0} (svc : Service) (p : Policy) (now window : ℕ) (id actor offer_id : String)
    (mode : SettlementMode) (key : String) (w : World L) (t : Trade)
    → svc.limits ≡ some p
    → svc.has_limits_store ≡ true
    → p.window ≡ pos window
    → str_eq id "" ≡ false
    → (create svc now id actor offer_id mode key w).0 ≡ ok (t, true)
    → let after = (create svc now id actor offer_id mode key w).1.db in
      (total : ℕ) × (cap : ℕ) × (committed_spend_usd svc after now t.buyer_agent_id ≡ ok total)
      × (cap_micro (effective (policy_at svc after p) t.buyer_agent_id).per_day ≡ ok cap)
      × (total ≤ cap)
create-within_caps svc p now window id actor offer_id mode key w t limited stored windowed named h =
    let (offer, e) = create-new svc now id actor offer_id mode key w t h in
    rw e (
      create_from-within svc p now window id actor offer (default_mode mode) key w t limited stored
        windowed named (sym (ap (λ x. x.0) e) ∙ h))
