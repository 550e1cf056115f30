-- ===== src/Trade/Tests/Sums.antt =====
-- The running sum of internal/trade's checkSpend at two rows.
use vtessera.Common.{List, [], ◌∷◌}
use vtessera.Domain.{SpendRow}
use vtessera.Trade.Tests.{one_dollar, ten_dollars}

abbrev rows : List SpendRow
rows =
    record { mint = "usdc"; amount = one_dollar }
    ∷ record { mint = "usdc"; amount = ten_dollars }
    ∷ []
