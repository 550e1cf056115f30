-- ===== src/Store/Live.antt =====
-- When internal/store/agents.go refuses to withdraw an agent's listing.
use vtessera.Common.{
  ℕ, ◌≡◌, ◌↔◌, refl, ◌∙◌, Bool, true, false, not, ◌&&◌, ◌||◌, List, [], ◌∷◌, is_empty, String,
  eq_iff, err, arith,
}
use vtessera.Domain.{Trade, TradeState, terminal, party, state_eq}
use vtessera.Store.{Db, agent_has_live_trades}
use vtessera.Store.Query.{filter_by, exists_by, order_by, insert_by, collect}
use vtessera.Store.Retire.{retire_agent, live_trade_ids, is_live_trade_of}

insert_by-kept :
    {A : Type 0} (before : A → A → Bool) (x : A) (xs : List A)
    → is_empty (insert_by before x xs) ≡ false
unfolding insert_by
insert_by-kept before x [] = refl
insert_by-kept before x (y ∷ ys) = ground arith

-- An order has a row exactly if the table has.
empty-order_by :
    {A : Type 0} (before : A → A → Bool) (xs : List A) → is_empty (order_by before xs) ≡ is_empty xs
unfolding order_by
empty-order_by before [] = refl
empty-order_by before (x ∷ xs) = insert_by-kept before x (order_by before xs)

empty-collect : {A B : Type 0} (f : A → B) (xs : List A) → is_empty (collect f xs) ≡ is_empty xs
unfolding collect
empty-collect f [] = refl
empty-collect f (x ∷ xs) = refl

empty-filter_by :
    {A : Type 0} (p : A → Bool) (xs : List A) → is_empty (filter_by p xs) ≡ not (exists_by p xs)
unfolding filter_by exists_by
empty-filter_by p [] = refl
empty-filter_by p (x ∷ xs) = ground (arith, empty-filter_by p xs)

empty-live :
    (db : Db) (id : String)
    → is_empty (live_trade_ids db id) ≡ not (exists_by (is_live_trade_of id) db.trades)
unfolding live_trade_ids
empty-live db id =
    empty-collect _ (order_by _ (filter_by (is_live_trade_of id) db.trades))
    ∙ empty-order_by _ (filter_by (is_live_trade_of id) db.trades)
    ∙ empty-filter_by (is_live_trade_of id) db.trades

retire_agent-refused :
    (db : Db) (id reason actor : String) (at : ℕ)
    → (retire_agent db id reason actor at ≡ err agent_has_live_trades)
      ↔ (is_empty (live_trade_ids db id) ≡ false)
unfolding retire_agent
retire_agent-refused db id reason actor at = (λ h. ground arith, λ h. ground arith)

-- A trade of the agent that has not ended by the domain's own account, or that was resolved.
abbrev pub blocks : String → Trade → Bool
blocks id t = party t id && (not (terminal t.state) || state_eq t.state TradeState.resolved)

is_live_trade_of-blocks : (id : String) (t : Trade) → is_live_trade_of id t ≡ blocks id t
unfolding terminal party state_eq
is_live_trade_of-blocks id t = ground (
  arith,
  eq_iff t.buyer_agent_id id,
  eq_iff id t.buyer_agent_id,
  eq_iff t.seller_agent_id id,
  eq_iff id t.seller_agent_id,
)

exists_by_ext :
    {A : Type 0} (p q : A → Bool) (xs : List A)
    → ((x : A) → p x ≡ q x)
    → exists_by p xs ≡ exists_by q xs
unfolding exists_by
exists_by_ext p q [] h = refl
exists_by_ext p q (x ∷ xs) h = rw (h x, exists_by_ext p q xs h) refl

-- A withdrawal is refused for live trades exactly if the agent is a party to a trade that is not
-- terminal, or that is resolved, which is terminal too.
pub retire_agent-live :
    (db : Db) (id reason actor : String) (at : ℕ)
    → (retire_agent db id reason actor at ≡ err agent_has_live_trades)
      ↔ (exists_by (blocks id) db.trades ≡ true)
retire_agent-live db id reason actor at =
    let (f, g) = retire_agent-refused db id reason actor at in
    let same =
      exists_by_ext (is_live_trade_of id) (blocks id) db.trades (is_live_trade_of-blocks id) in
    (
      λ h. ground (arith, empty-live db id, f h, same),
      λ h. g (ground (arith, empty-live db id, same)),
    )
