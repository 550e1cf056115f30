-- ===== src/Trade/Tests/Calls.antt =====
-- Calls of internal/trade's methods at a small market: who may call, and what is checked.
use vtessera.Common.{
  ℕ, ◌+◌, ◌≤◌, ◌≡◌, refl, Bool, true, false, Option, none, some, List, [], ◌∷◌, String, str_eq,
  Dict, Result, ok, err, arith, pos,
}
use vtessera.Bytes.{cut, parse_uint, trim, trim_left}
use vtessera.Common.{insert, lookup}
use vtessera.Limits.{
  cached_rate, cached_usd_value, new_price_cache, rates_lookup, to_micro, scale_to_usd,
}
use vtessera.Money.{base_units, is_zero, units_of_digits}
use vtessera.Domain.{accepts_mode, contains_mode}
use vtessera.Store.Spend.{committed_spend_since}
use vtessera.Trade.Spend.{check_spend_under, committed_spend, sum_rows}
use vtessera.Trade.Opening.{create_unless, create_from, create_guards, check_agent}
use vtessera.Trade.Service.{append_event}
use vtessera.Limits.{cap_micro, effective}
use vtessera.Domain.{Trade, TradeState, Receipt, offchain, state_eq, party}
use vtessera.Store.{get_trade, trade_acceptance}
use vtessera.Store.Query.{
  find_by, collect, order_by, filter_by, insert_by, exists_by, update_by, min_by,
}
use vtessera.Store.{
  accepted_by, acceptances_of, acceptance_before, set_trade_state, append_trade_event,
  has_live_request, set_offer_status, create_trade, get_agent, get_offer, get_agent_limits,
}
use vtessera.Trade.Machine.{can_transition}
use vtessera.Trade.Monad.{Service, World, not_party, ◌>>=◌}
use vtessera.Trade.Service.{party_trade, read_trade, acceptance_deadline, apply, apply_as, move}
use vtessera.Trade.Spend.{committed_spend_usd, policy_at, check_spend}
use vtessera.Trade.Service.{live_settlement}
use vtessera.Trade.Opening.{create}
use vtessera.Trade.Methods.{cancel, dispute, accept, begin_negotiation, get}
use vtessera.Trade.Receipts.{do_record, tessera}
use vtessera.Trade.Opening.Caps.{create-within_caps}
use vtessera.Trade.Methods.Access.{outsider_refused}
use vtessera.Trade.Methods.Lapse.{cancel-lapsed}
use vtessera.Trade.Receipts.Commit.{do_record-commits}
use vtessera.Trade.Tests.{memory_ledger, memory_record, service, market, policy, one_dollar}

abbrev trade_at : TradeState → ℕ → List String → Trade
trade_at s at acceptances = record {
  id = "t1";
  offer_id = "offer";
  buyer_agent_id = "buyer";
  seller_agent_id = "seller";
  description = "work";
  amount = one_dollar;
  mint = "usdc";
  settlement_mode = offchain;
  state = s;
  idempotency_key = "";
  created_at = 0;
  updated_at = at;
  acceptances = acceptances;
}

abbrev both : List String
both = "buyer" ∷ "seller" ∷ []

-- The market with one trade that both parties accepted.
abbrev accepted_market : World (Dict Receipt)
accepted_market = record market {
  db = record market.db {
    trades = trade_at TradeState.accepted 0 [] ∷ [];
    trade_acceptances =
        record { trade_id = "t1"; agent_id = "buyer"; created_at = 10 }
        ∷ record { trade_id = "t1"; agent_id = "seller"; created_at = 12 }
        ∷ [];
  };
}

outsider_refused_example :
    (begin_negotiation 30 "stranger" "t1" accepted_market ≡ (err not_party, accepted_market))
    × (accept 30 "stranger" "t1" accepted_market ≡ (err not_party, accepted_market))
    × (cancel service 30 "stranger" "t1" accepted_market ≡ (err not_party, accepted_market))
    × (dispute 30 "stranger" "t1" accepted_market ≡ (err not_party, accepted_market))
    × (do_record memory_ledger service 30 "stranger" "t1" accepted_market
        ≡ (err not_party, accepted_market))
    × (get "stranger" "t1" accepted_market ≡ (err not_party, accepted_market))
    × (tessera memory_ledger "stranger" "t1" accepted_market ≡ (err not_party, accepted_market))
unfolding get_trade find_by accepted_by collect order_by filter_by acceptances_of acceptance_before
    insert_by party
outsider_refused_example =
    outsider_refused memory_ledger service 30 "stranger" "t1" accepted_market
      (trade_at TradeState.accepted 0 both) refl refl

cancel-lapsed_example :
    (party (trade_at TradeState.accepted 0 both) "buyer" ≡ true)
    × (live_settlement service accepted_market.db 70 "t1" ≡ false)
    × ((at : ℕ) × (trade_acceptance accepted_market.db "t1" ≡ some at)
        × (at + service.accept_ttl ≤ 70))
unfolding get_trade state_eq cancel find_by accepted_by collect order_by filter_by ◌>>=◌ party_trade
    party live_settlement acceptance_deadline trade_acceptance min_by apply apply_as can_transition
    move set_trade_state exists_by insert_by update_by acceptance_before acceptances_of
    append_trade_event has_live_request read_trade
cancel-lapsed_example =
    cancel-lapsed service 70 "buyer" "t1" accepted_market (trade_at TradeState.accepted 0 both)
      (trade_at TradeState.cancelled 70 both) refl refl refl

-- Without caps, so that what is left is the commit.
abbrev free_service : Service
free_service = record service { limits = none }

do_record-commits_example :
    (party (trade_at TradeState.accepted 0 both) "seller" ≡ true)
    × (TradeState.accepted ≡ TradeState.accepted)
    × (check_spend free_service accepted_market.db 30 "buyer" one_dollar "usdc" "t1" ≡ ok tt)
    × (memory_ledger.receipt "t1"
          (do_record memory_ledger free_service 30 "seller" "t1" accepted_market).1.ledger
        ≡ some (record { id = "t1"; trade_id = "t1"; jws = "t1"; issued_at = 30 }))
unfolding get_trade state_eq do_record find_by accepted_by collect order_by filter_by ◌>>=◌
    party_trade party apply apply_as can_transition move set_trade_state exists_by insert_by
    update_by acceptance_before acceptances_of append_trade_event set_offer_status check_spend
    read_trade memory_record vtessera.Common.lookup vtessera.Common.insert
do_record-commits_example =
    do_record-commits memory_ledger free_service 30 "seller" "t1" accepted_market
      (trade_at TradeState.accepted 0 both) (trade_at TradeState.recorded 30 both)
      (record { id = "t1"; trade_id = "t1"; jws = "t1"; issued_at = 30 }) refl refl refl

abbrev new_trade_20 : Trade
new_trade_20 = record (trade_at TradeState.proposed 20 []) { created_at = 20 }

create-within_caps_example :
    let after = (create service 20 "t1" "buyer" "offer" offchain "" market).1.db in
    (total : ℕ) × (cap : ℕ) × (committed_spend_usd service after 20 "buyer" ≡ ok total)
    × (cap_micro (effective (policy_at service after policy) "buyer").per_day ≡ ok cap)
    × (total ≤ cap)
unfolding create ◌>>=◌ create_unless get_offer find_by create_from create_guards accepts_mode
    contains_mode check_agent get_agent check_spend check_spend_under cached_usd_value cached_rate
    rates_lookup lookup new_price_cache base_units cut parse_uint trim trim_left insert to_micro
    scale_to_usd is_zero units_of_digits cap_micro effective policy_at get_agent_limits
    committed_spend committed_spend_since filter_by collect sum_rows exists_by create_trade
    append_event append_trade_event
create-within_caps_example =
    create-within_caps service policy 20 100 "t1" "buyer" "offer" offchain "" market new_trade_20
      refl refl refl refl refl
