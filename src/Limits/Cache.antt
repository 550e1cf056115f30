-- ===== src/Limits/Cache.antt =====
-- The price cache of internal/limits/limits.go against the policy that it is made from.
use vtessera.Common.{
  ℕ, ◌≡◌, refl, sym, some, arith, inl, inr, ok, pos, String, str_eq, eq_iff, lookup, insert,
  lookup-insert, Option-cases, Result-cases, Bool-cases,
}
use vtessera.Money.{Amount, base_units}
use vtessera.Limits.{
  Policy, Rate, PriceCache, rates_lookup, to_micro, usd_value, cached_rate, cached_usd_value,
  new_price_cache,
}

-- Every rate kept is the parsed rate of its mint.
pub record IsCoherent (c : PriceCache) : Type 0 where
  pub parsed :
      (mint : String) (v : ℕ) (r : Rate)
      → lookup mint c.micro ≡ some v
      → rates_lookup c.policy.rates mint ≡ some r
      → to_micro r.usd ≡ ok v

pub new_price_cache-IsCoherent : (p : Policy) → IsCoherent (new_price_cache p)
unfolding new_price_cache lookup
new_price_cache-IsCoherent p = record { parsed = λ mint v r h k. absurd (cc) }

insert-IsCoherent :
    (c : PriceCache) (mint : String) (r : Rate) (v : ℕ)
    → IsCoherent c
    → rates_lookup c.policy.rates mint ≡ some r
    → to_micro r.usd ≡ ok v
    → IsCoherent (record c { micro = insert mint v c.micro })
insert-IsCoherent c mint r v h found e = record {
  parsed = λ j w s kept rate. insert_case c mint r v h found e j w s kept rate;
}
  where
    insert_case :
        (c : PriceCache) (mint : String) (r : Rate) (v : ℕ)
        → IsCoherent c
        → rates_lookup c.policy.rates mint ≡ some r
        → to_micro r.usd ≡ ok v
        → (j : String) (w : ℕ) (s : Rate) → lookup j (insert mint v c.micro) ≡ some w
        → rates_lookup c.policy.rates j ≡ some s
        → to_micro s.usd ≡ ok w
    insert_case c mint r v h found e j w s kept rate = elim (Bool-cases (str_eq mint j)) [
      | inl same ↦ ground (arith, lookup-insert mint j v c.micro, eq_iff mint j)
      | inr other ↦ ground (arith, lookup-insert mint j v c.micro, h.parsed j w s)
    ]

cached_rate-eq :
    (c : PriceCache) (mint : String) (r : Rate)
    → IsCoherent c
    → rates_lookup c.policy.rates mint ≡ some r
    → ((cached_rate c mint r).0 ≡ to_micro r.usd)
      × IsCoherent (cached_rate c mint r).1
      × ((cached_rate c mint r).1.policy ≡ c.policy)
unfolding cached_rate
cached_rate-eq c mint r h found = elim (Option-cases (lookup mint c.micro)) [
  | inr (v, kept) ↦ rw (kept, cached_rate) (sym (h.parsed mint v r kept found), h, refl)
  | inl miss ↦ elim (Result-cases (to_micro r.usd)) [
    | inl (v, e) ↦ rw (miss, e, cached_rate) (refl, insert-IsCoherent c mint r v h found e, refl)
    | inr (x, e) ↦ rw (miss, e, cached_rate) (refl, h, refl)
  ]
]

-- Pricing through a coherent cache gives what the policy gives, and leaves a coherent cache of the
-- same policy.
pub cached_usd_value-usd_value :
    (c : PriceCache) (a : Amount) (mint : String)
    → IsCoherent c
    → ((cached_usd_value c a mint).0 ≡ usd_value c.policy a mint)
      × IsCoherent (cached_usd_value c a mint).1
      × ((cached_usd_value c a mint).1.policy ≡ c.policy)
unfolding cached_usd_value usd_value
cached_usd_value-usd_value c a mint h = elim (Option-cases (rates_lookup c.policy.rates mint)) [
  | inl e ↦ rw (e, cached_usd_value) (refl, h, refl)
  | inr (r, e) ↦ elim (Result-cases (base_units a (pos r.decimals))) [
    | inr (x, eu) ↦ rw (e, eu, cached_usd_value) (refl, h, refl)
    | inl (units, eu) ↦
        let (same, coherent, policy) = cached_rate-eq c mint r h e in
        rw (e, eu, cached_usd_value) (rw same (refl, coherent, policy))
  ]
]
