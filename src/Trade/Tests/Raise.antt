-- ===== src/Trade/Tests/Raise.antt =====
-- A raise of the caps of internal/trade at a policy with one ceiling.
use vtessera.Common.{◌≡◌, refl, true, false, some, [], ◌∷◌, lookup, insert}
use vtessera.Bytes.{cut, parse_uint, trim, trim_left, compare_bytes, contains_any, has_prefix}
use vtessera.Money.{
  Amount, base_units, is_zero, units_of_digits, cmp, align, parse, check_fraction, all_digits,
}
use vtessera.Limits.{
  Policy, Limits, to_micro, check, check_bound, validate, effective, raise_trade, raise_day,
}
use vtessera.Limits.Caps.{passes}
use vtessera.Store.{get_agent_limits, set_agent_limits}
use vtessera.Trade.Monad.{Service, ◌>>=◌}
use vtessera.Trade.Spend.{policy_at}
use vtessera.Trade.Methods.{raise_limits, raise_under}
use vtessera.Trade.Methods.Raise.{raise_limits-le_ceiling}
use vtessera.Trade.Tests.{service, market, policy, ten_dollars}

abbrev twenty_five : Amount
twenty_five = record { value = b'2' ∷ b'5' ∷ b'.' ∷ b'0' ∷ b'0' ∷ [] }

abbrev capped : Policy
capped = record policy { ceiling_per_day = twenty_five }

abbrev capped_service : Service
capped_service = record service { limits = some capped }

abbrev granted : Limits
granted = record { per_trade = ten_dollars; per_day = twenty_five; raised = true }

raise_limits-le_ceiling_example :
    (passes granted.per_trade capped.ceiling_per_trade ≡ false)
    × (passes granted.per_day capped.ceiling_per_day ≡ false)
unfolding raise_limits raise_under ◌>>=◌ check check_bound validate to_micro base_units is_zero
    units_of_digits cmp align parse check_fraction all_digits cut parse_uint trim trim_left
    compare_bytes contains_any has_prefix effective raise_trade raise_day get_agent_limits
    set_agent_limits lookup insert policy_at
raise_limits-le_ceiling_example =
    raise_limits-le_ceiling capped_service 20 capped "buyer" ten_dollars twenty_five market granted
      refl refl refl
