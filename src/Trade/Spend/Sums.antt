-- ===== src/Trade/Spend/Sums.antt =====
-- The wrapping sum of the rows in internal/trade/trade.go against the plain sum of their prices.
use vtessera.Common.{
  ℕ, ◌+◌, ◌%◌, ◌<◌, ◌≡◌, refl, ap, sym, ◌∙◌, false, List, [], ◌∷◌, ◌++◌, ltb, if◌then◌else◌, Result,
  ok, err, arith, inl, inr, Result-cases, Bool-cases,
}
use vtessera.Bytes.{u64_mod}
use vtessera.Limits.{Policy, PriceCache, usd_value, cached_usd_value, LimitsError}
use vtessera.Limits.Price.{usd_value-lt}
use vtessera.Limits.Cache.{IsCoherent, cached_usd_value-usd_value}
use vtessera.Domain.{SpendRow}
use vtessera.Trade.Monad.{spend_cap_exceeded}
use vtessera.Trade.Spend.{sum_rows, price_error}

-- The sum without a bound, or the first row's error that stops it.
unfoldable pub total_value : Policy → List SpendRow → Result LimitsError ℕ
total_value p [] = ok 0
total_value p (row ∷ rows) =
    let rest = total_value p rows in
    elim (usd_value p row.amount row.mint) [
      | err e ↦ err e
      | ok v ↦ elim rest [ err e ↦ err e | ok s ↦ ok (v + s) ]
    ]

-- The wrapping sum, step by step, when the row has a price.
sum_rows-cons :
    (c : PriceCache) (acc v : ℕ) (row : SpendRow) (rows : List SpendRow)
    → (cached_usd_value c row.amount row.mint).0 ≡ ok v
    → sum_rows c acc (row ∷ rows) ≡ (
        if ltb ((acc + v) % u64_mod) v
        then err spend_cap_exceeded
        else sum_rows (cached_usd_value c row.amount row.mint).1 ((acc + v) % u64_mod) rows)
unfolding sum_rows
sum_rows-cons c acc v row rows h = rw (h, sum_rows)

sum_rows-error :
    (c : PriceCache) (acc : ℕ) (row : SpendRow) (rows : List SpendRow) (e : LimitsError)
    → (cached_usd_value c row.amount row.mint).0 ≡ err e
    → sum_rows c acc (row ∷ rows) ≡ err (price_error e)
unfolding sum_rows
sum_rows-error c acc row rows e h = rw (h, sum_rows)

total_value-cons :
    (p : Policy) (row : SpendRow) (rows : List SpendRow) (v s : ℕ)
    → usd_value p row.amount row.mint ≡ ok v
    → total_value p rows ≡ ok s
    → total_value p (row ∷ rows) ≡ ok (v + s)
unfolding total_value
total_value-cons p row rows v s hv hs = rw (hv, hs, total_value)

-- A uint64 sum is below one of its parts exactly if it wrapped.
wrapped :
    (acc v : ℕ)
    → acc < u64_mod
    → v < u64_mod
    → ltb ((acc + v) % u64_mod) v ≡ false
    → (acc + v) % u64_mod ≡ acc + v
wrapped acc v h k e = ground arith

not_wrapped : (acc v : ℕ) → acc + v < u64_mod → ltb ((acc + v) % u64_mod) v ≡ false
not_wrapped acc v h = ground arith

-- The price of a row, by the policy.
row_price :
    (p : Policy) (c : PriceCache) (v : ℕ) (row : SpendRow)
    → IsCoherent c
    → c.policy ≡ p
    → (cached_usd_value c row.amount row.mint).0 ≡ ok v
    → usd_value p row.amount row.mint ≡ ok v
row_price p c v row hc hp hv =
    ap (λ (q : Policy). usd_value q row.amount row.mint) (sym hp)
    ∙ sym (cached_usd_value-usd_value c row.amount row.mint hc).0
    ∙ hv

sum_rows-cons_ok :
    (c : PriceCache) (acc v t : ℕ) (row : SpendRow) (rows : List SpendRow)
    → acc < u64_mod
    → v < u64_mod
    → (cached_usd_value c row.amount row.mint).0 ≡ ok v
    → sum_rows c acc (row ∷ rows) ≡ ok t
    → (sum_rows (cached_usd_value c row.amount row.mint).1 (acc + v) rows ≡ ok t)
      × (acc + v < u64_mod)
sum_rows-cons_ok c acc v t row rows ha hv priced h =
    elim (Bool-cases (ltb ((acc + v) % u64_mod) v)) [
      | inl wraps ↦ absurd (ground (arith, sum_rows-cons c acc v row rows priced))
      | inr fits ↦
          let e : (acc + v) % u64_mod ≡ acc + v = wrapped acc v ha hv fits in
          (
            ap (λ (n : ℕ). sum_rows (cached_usd_value c row.amount row.mint).1 n rows) (sym e)
                ∙ ground (arith, sum_rows-cons c acc v row rows priced),
            omega arith,
          )
    ]

-- The loop returns a sum only if every row has a price and nothing wrapped, and it is then exact.
pub sum_rows-exact :
    (p : Policy) (c : PriceCache) (acc t : ℕ) (rows : List SpendRow)
    → IsCoherent c
    → c.policy ≡ p
    → acc < u64_mod
    → sum_rows c acc rows ≡ ok t
    → (s : ℕ) × (total_value p rows ≡ ok s) × (t ≡ acc + s) × (t < u64_mod)
sum_rows-exact p c acc t [] hc hp ha h =
    unfold sum_rows total_value in (0, refl, ground arith, ground arith)
sum_rows-exact p c acc t (row ∷ rows) hc hp ha h =
    elim (Result-cases (cached_usd_value c row.amount row.mint).0) [
      | inr (e, he) ↦ absurd (ground (arith, sum_rows-error c acc row rows e he))
      | inl (v, priced) ↦
          let (_, hc', kept) = cached_usd_value-usd_value c row.amount row.mint hc in
          let hv = row_price p c v row hc hp priced in
          let lt = usd_value-lt p row.amount row.mint hv in
          let (h', fits) = sum_rows-cons_ok c acc v t row rows ha lt priced h in
          let (s, hs, e, small) =
            sum_rows-exact p (cached_usd_value c row.amount row.mint).1 (acc + v) t rows hc'
              (kept ∙ hp) fits h' in
          (v + s, total_value-cons p row rows v s hv hs, omega arith, small)
    ]

total_value-inv :
    (p : Policy) (row : SpendRow) (rows : List SpendRow) (t : ℕ)
    → total_value p (row ∷ rows) ≡ ok t
    → (v : ℕ) × (s : ℕ) × (usd_value p row.amount row.mint ≡ ok v)
      × (total_value p rows ≡ ok s)
      × (t ≡ v + s)
total_value-inv p row rows t h = elim (Result-cases (usd_value p row.amount row.mint)) [
  | inr (e, he) ↦ absurd (unfold total_value in ground arith)
  | inl (v, hv) ↦ elim (Result-cases (total_value p rows)) [
    | inr (e, he) ↦ absurd (unfold total_value in ground arith)
    | inl (s, hs) ↦ (v, s, hv, hs, ground (arith, total_value-cons p row rows v s hv hs))
  ]
]

-- Where the exact sum stays below 2^64, the loop returns it.
pub sum_rows-total :
    (p : Policy) (c : PriceCache) (acc s : ℕ) (rows : List SpendRow)
    → IsCoherent c
    → c.policy ≡ p
    → total_value p rows ≡ ok s
    → acc + s < u64_mod
    → sum_rows c acc rows ≡ ok (acc + s)
sum_rows-total p c acc s [] hc hp h lt = unfold sum_rows total_value in ground arith
sum_rows-total p c acc s (row ∷ rows) hc hp h lt =
    let (v, r, hv, hr, e) = total_value-inv p row rows s h in
    let (same, hc', kept) = cached_usd_value-usd_value c row.amount row.mint hc in
    let priced = same ∙ ap (λ (q : Policy). usd_value q row.amount row.mint) hp ∙ hv in
    let rest =
      sum_rows-total p (cached_usd_value c row.amount row.mint).1 (acc + v) r rows hc' (kept ∙ hp)
        hr (omega arith) in
    sum_rows-cons c acc v row rows priced ∙ ground (arith, not_wrapped acc v (omega arith), rest)

pub total_value-append :
    (p : Policy) (rows : List SpendRow) (row : SpendRow) (s v : ℕ)
    → total_value p rows ≡ ok s
    → usd_value p row.amount row.mint ≡ ok v
    → total_value p (rows ++ (row ∷ [])) ≡ ok (s + v)
total_value-append p [] row s v h hv = unfold total_value in ground arith
total_value-append p (r ∷ rows) row s v h hv =
    let (x, y, hx, hy, e) = total_value-inv p r rows s h in
    total_value-cons p r (rows ++ (row ∷ [])) x (y + v) hx (total_value-append p rows row y v hy hv)
    ∙ ap ok (omega arith)
