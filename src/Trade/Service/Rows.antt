-- ===== src/Trade/Service/Rows.antt =====
-- The rows of the trades table by identifier: which state a lookup finds, and what the update of
-- internal/store/trades.go's SetTradeState makes of it.
use vtessera.Common.{
  ℕ, ◌≡◌, refl, ◌∙◌, Bool, true, false, not, ◌&&◌, Option, none, some, List, [], ◌∷◌, ◌++◌,
  if◌then◌else◌, String, str_eq, eq_iff, arith, inl, inr, Bool-cases, Option-cases,
}
use vtessera.Domain.{Trade, TradeState, state_eq}
use vtessera.Store.{Db, get_trade, is_in_state}
use vtessera.Store.Query.{find_by, exists_by, update_by}

-- The state of the first row with an identifier.
unfoldable pub state_of : String → List Trade → Option TradeState
state_of id [] = none
state_of id (t ∷ ts) = if str_eq t.id id then some t.state else state_of id ts

abbrev pub has_id : String → Trade → Bool
has_id id t = str_eq t.id id

-- No two rows share an identifier, which is the primary key.
unfoldable pub distinct_ids : List Trade → Bool
distinct_ids [] = true
distinct_ids (t ∷ ts) = not (exists_by (has_id t.id) ts) && distinct_ids ts

abbrev pub moved_row : TradeState → ℕ → Trade → Trade
moved_row to at t = record t { state = to; updated_at = at }

abbrev pub moved_rows : String → TradeState → TradeState → ℕ → List Trade → List Trade
moved_rows id from to at = update_by (is_in_state id from) (moved_row to at)

pub state_eq-eq : (s t : TradeState) → state_eq s t ≡ true → s ≡ t
unfolding state_eq
state_eq-eq s t h = ground arith

pub state_eq_self : (s : TradeState) → state_eq s s ≡ true
unfolding state_eq
state_eq_self s = ground arith

exists_in_state :
    (id : String) (s : TradeState) (ts : List Trade)
    → exists_by (is_in_state id s) ts ≡ true
    → exists_by (has_id id) ts ≡ true
unfolding exists_by
exists_in_state id s [] h = cc
exists_in_state id s (t ∷ ts) h = ground (arith, exists_in_state id s ts)

-- With distinct identifiers, a row that is in a state is the one that a lookup finds.
pub state_of-in_state :
    (id : String) (s : TradeState) (ts : List Trade)
    → distinct_ids ts ≡ true
    → exists_by (is_in_state id s) ts ≡ true
    → state_of id ts ≡ some s
unfolding exists_by state_of distinct_ids
state_of-in_state id s [] d h = absurd (cc)
state_of-in_state id s (t ∷ ts) d h = ground (
  arith,
  eq_iff t.id id,
  exists_in_state id s ts,
  state_of-in_state id s ts,
  state_eq-eq t.state s,
)

pub state_of-unmoved :
    (id j : String) (from to : TradeState) (at : ℕ) (ts : List Trade)
    → str_eq id j ≡ false
    → state_of j (moved_rows id from to at ts) ≡ state_of j ts
unfolding update_by state_of
state_of-unmoved id j from to at [] h = refl
state_of-unmoved id j from to at (t ∷ ts) h =
    ground (arith, eq_iff t.id id, eq_iff t.id j, eq_iff id j, state_of-unmoved id j from to at ts)

pub state_of-moved :
    (id : String) (from to : TradeState) (at : ℕ) (ts : List Trade)
    → state_of id ts ≡ some from
    → state_of id (moved_rows id from to at ts) ≡ some to
unfolding update_by state_of
state_of-moved id from to at [] h = absurd (cc)
state_of-moved id from to at (t ∷ ts) h =
    ground (arith, state_eq_self from, state_of-moved id from to at ts)

-- The state that is not the one moved from stays.
pub state_of-kept :
    (id j : String) (from to s : TradeState) (at : ℕ) (ts : List Trade)
    → state_of j ts ≡ some s
    → state_eq s from ≡ false
    → state_of j (moved_rows id from to at ts) ≡ some s
unfolding update_by state_of
state_of-kept id j from to s at [] h k = absurd (cc)
state_of-kept id j from to s at (t ∷ ts) h k =
    ground (arith, eq_iff t.id j, eq_iff t.id id, state_of-kept id j from to s at ts)

exists_by-moved :
    (j id : String) (from to : TradeState) (at : ℕ) (ts : List Trade)
    → exists_by (has_id j) (moved_rows id from to at ts) ≡ exists_by (has_id j) ts
unfolding update_by exists_by
exists_by-moved j id from to at [] = refl
exists_by-moved j id from to at (t ∷ ts) = ground (arith, exists_by-moved j id from to at ts)

pub distinct_ids-moved :
    (id : String) (from to : TradeState) (at : ℕ) (ts : List Trade)
    → distinct_ids (moved_rows id from to at ts) ≡ distinct_ids ts
unfolding update_by distinct_ids
distinct_ids-moved id from to at [] = refl
distinct_ids-moved id from to at (t ∷ ts) =
    ground (arith, exists_by-moved t.id id from to at ts, distinct_ids-moved id from to at ts)

-- Where no row is in the state, none changes.
pub unmoved :
    (id : String) (from to : TradeState) (at : ℕ) (ts : List Trade)
    → exists_by (is_in_state id from) ts ≡ false
    → moved_rows id from to at ts ≡ ts
unfolding update_by exists_by
unmoved id from to at [] h = refl
unmoved id from to at (t ∷ ts) h = ground (arith, unmoved id from to at ts)

-- A new row at the end.
pub state_of-absent :
    (id : String) (ts : List Trade) → exists_by (has_id id) ts ≡ false → state_of id ts ≡ none
unfolding exists_by state_of
state_of-absent id [] h = refl
state_of-absent id (t ∷ ts) h = ground (arith, state_of-absent id ts)

pub state_of-append :
    (j : String) (ts : List Trade) (t : Trade)
    → exists_by (has_id t.id) ts ≡ false
    → state_of j (ts ++ (t ∷ [])) ≡ (if str_eq t.id j then some t.state else state_of j ts)
unfolding exists_by state_of
state_of-append j [] t h = refl
state_of-append j (u ∷ ts) t h =
    ground (arith, eq_iff t.id j, eq_iff u.id j, eq_iff u.id t.id, state_of-append j ts t)

-- A row that is found stays found.
pub state_of-append_old :
    (j : String) (ts : List Trade) (t : Trade) {s : TradeState}
    → state_of j ts ≡ some s
    → state_of j (ts ++ (t ∷ [])) ≡ some s
unfolding state_of
state_of-append_old j [] t h = absurd (cc)
state_of-append_old j (u ∷ ts) t {s} h = elim (Bool-cases (str_eq u.id j)) [
  | inl e ↦ rw e (ground arith)
  | inr e ↦ rw e (state_of-append_old j ts t (ground arith))
]

exists_by-append :
    (j : String) (ts : List Trade) (t : Trade)
    → exists_by (has_id j) (ts ++ (t ∷ []))
      ≡ (if str_eq t.id j then true else exists_by (has_id j) ts)
unfolding exists_by
exists_by-append j [] t = refl
exists_by-append j (u ∷ ts) t = ground (arith, exists_by-append j ts t)

pub distinct_ids-append :
    (ts : List Trade) (t : Trade)
    → distinct_ids ts ≡ true
    → exists_by (has_id t.id) ts ≡ false
    → distinct_ids (ts ++ (t ∷ [])) ≡ true
unfolding exists_by distinct_ids
distinct_ids-append [] t d h = refl
distinct_ids-append (u ∷ ts) t d h = ground (
  arith,
  eq_iff t.id u.id,
  eq_iff u.id t.id,
  exists_by-append u.id ts t,
  distinct_ids-append ts t,
)

state_of-found :
    (ts : List Trade) (id : String) (u : Trade)
    → find_by (has_id id) ts ≡ some u
    → state_of id ts ≡ some u.state
unfolding find_by state_of
state_of-found [] id u h = absurd (cc)
state_of-found (t ∷ ts) id u h = ground (arith, state_of-found ts id u)

-- What `GetTrade` reads.
pub get_trade-state_of :
    (db : Db) (id : String) {t : Trade}
    → get_trade db id ≡ some t
    → state_of id db.trades ≡ some t.state
unfolding get_trade
get_trade-state_of db id {t} h = elim (Option-cases (find_by (has_id id) db.trades)) [
  | inl e ↦ absurd (ground arith)
  | inr (u, e) ↦ state_of-found db.trades id u e ∙ ground arith
]
