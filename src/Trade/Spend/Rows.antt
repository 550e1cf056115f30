-- ===== src/Trade/Spend/Rows.antt =====
-- What a new trade adds to the rows that its buyer is charged for (internal/store/limits.go).
use vtessera.Common.{
  ℕ, ◌≤◌, ◌≡◌, refl, ap, ◌∙◌, true, false, [], ◌∷◌, ◌++◌, String, str_eq, eq_iff, arith,
}
use vtessera.Domain.{Trade, TradeEvent}
use vtessera.Store.{Db}
use vtessera.Store.Query.{
  filter_by, collect, filter_by_ext, filter_by-append_in, filter_by-append_out, collect-append,
}
use vtessera.Store.Spend.{
  committed_at, first_at, enters_committed, engaged_at, is_charged, is_committed, is_released,
  spend_row, committed_spend_since,
}

-- An event that commits nothing leaves every trade's entry into a committed state.
committed_at-append :
    (before after : Db) (id : String) (e : TradeEvent)
    → after.trade_events ≡ before.trade_events ++ (e ∷ [])
    → is_committed e.to_state ≡ false
    → committed_at after id ≡ committed_at before id
unfolding committed_at
committed_at-append before after id e h k =
    ap (λ es. first_at (filter_by (enters_committed id) es)) h
    ∙ ap first_at (filter_by-append_out (enters_committed id) before.trade_events e (ground arith))

is_charged-append :
    (before after : Db) (buyer : String) (since : ℕ) (exclude : String) (e : TradeEvent)
    → after.trade_events ≡ before.trade_events ++ (e ∷ [])
    → is_committed e.to_state ≡ false
    → (t : Trade) → is_charged after buyer since exclude t ≡ is_charged before buyer since exclude t
unfolding is_charged engaged_at
is_charged-append before after buyer since exclude e h k t =
    rw (committed_at-append before after t.id e h k) refl

-- A trade that starts inside the window is charged to its buyer.
is_charged-new :
    (db : Db) (since : ℕ) (t : Trade)
    → since ≤ t.created_at
    → is_released t.state ≡ false
    → str_eq t.id "" ≡ false
    → is_charged db t.buyer_agent_id since "" t ≡ true
unfolding is_charged engaged_at
is_charged-new db since t h k named = ground (arith, eq_iff t.buyer_agent_id t.buyer_agent_id)

pub committed_spend_since-new :
    (before after : Db) (since : ℕ) (t : Trade) (e : TradeEvent)
    → after.trades ≡ before.trades ++ (t ∷ [])
    → after.trade_events ≡ before.trade_events ++ (e ∷ [])
    → is_committed e.to_state ≡ false
    → since ≤ t.created_at
    → is_released t.state ≡ false
    → str_eq t.id "" ≡ false
    → committed_spend_since after t.buyer_agent_id since ""
      ≡ committed_spend_since before t.buyer_agent_id since "" ++ (spend_row t ∷ [])
unfolding committed_spend_since collect
committed_spend_since-new before after since t e rows events idle recent live named =
    rw
      (
        rows,
        filter_by_ext (is_charged after t.buyer_agent_id since "")
            (is_charged before t.buyer_agent_id since "") (before.trades ++ (t ∷ []))
            (is_charged-append before after t.buyer_agent_id since "" e events idle),
        filter_by-append_in (is_charged before t.buyer_agent_id since "") before.trades t
            (is_charged-new before since t recent live named),
      )
      (collect-append spend_row
        (filter_by (is_charged before t.buyer_agent_id since "") before.trades) (t ∷ []))
