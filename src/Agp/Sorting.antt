-- ===== src/Agp/Sorting.antt =====
-- internal/agp/agp.go: the order of the routes of a capability, as sortEntries leaves it.
use vtessera.Common.{
  ℕ, ◌≡◌, ◌≤◌, ◌∙◌, refl, subst, Bool, true, false, not, ◌&&◌, ◌||◌, some, List, [], ◌∷◌, leb,
  length, all, arith, Bool-cases, inl, inr,
}
use vtessera.Money.{Amount}
use vtessera.Money.Digits.{IsDecimal, units_at, fraction_of}
use vtessera.Money.Compare.{cmp-compare}
use vtessera.Store.Query.{filter_by, order_by, insert_by}
use vtessera.Bytes.{utf8}
use vtessera.Agp.Entries.{RouteEntry, less_cost}

-- The string of an amount, as the amount that `Parse` makes of it.
abbrev pub amount_of : RouteEntry → Amount
amount_of e = record { value = utf8 e.cost_amount }

-- The cost in billionths, of an amount with at most nine fraction digits.
abbrev pub billionths : RouteEntry → ℕ
billionths e = units_at 9 (amount_of e)

pub record IsPriced (e : RouteEntry) : Type 0 where
  pub parsed : e.parsed_cost ≡ some (amount_of e)
  pub decimal : IsDecimal (amount_of e)
  pub digits : length (fraction_of (amount_of e)) ≤ 9

abbrev pub AllPriced : List RouteEntry → Type 0
AllPriced [] = Unit {0}
AllPriced (e ∷ es) = IsPriced e × AllPriced es

-- The costs ascend.
abbrev pub IsAscending : List RouteEntry → Type 0
IsAscending [] = Unit {0}
IsAscending (e ∷ es) = (all (λ x. leb (billionths e) (billionths x)) es ≡ true) × IsAscending es

less_cost-true :
    (a b : RouteEntry)
    → IsPriced a
    → IsPriced b
    → less_cost a b ≡ true
    → billionths a ≤ billionths b
unfolding less_cost
less_cost-true a b pa pb h = ground (
  arith,
  pa.parsed,
  pb.parsed,
  cmp-compare 9 (amount_of a) (amount_of b) pa.decimal pb.decimal pa.digits pb.digits,
)

less_cost-false :
    (a b : RouteEntry)
    → IsPriced a
    → IsPriced b
    → less_cost a b ≡ false
    → billionths b ≤ billionths a
unfolding less_cost
less_cost-false a b pa pb h = ground (
  arith,
  pa.parsed,
  pb.parsed,
  cmp-compare 9 (amount_of a) (amount_of b) pa.decimal pb.decimal pa.digits pb.digits,
)

module _ (p : RouteEntry → Bool) where
  all-insert_by :
      (before : RouteEntry → RouteEntry → Bool) (x : RouteEntry) (xs : List RouteEntry)
      → all p (insert_by before x xs) ≡ (p x && all p xs)
  unfolding insert_by
  all-insert_by before x [] = refl
  all-insert_by before x (y ∷ ys) = ground (arith, all-insert_by before x ys)

  pub all-order_by :
      (before : RouteEntry → RouteEntry → Bool) (xs : List RouteEntry)
      → all p (order_by before xs) ≡ all p xs
  unfolding order_by
  all-order_by before [] = refl
  all-order_by before (x ∷ xs) =
      rw (all-insert_by before x (order_by before xs), all-order_by before xs) refl

all-above :
    (m n : ℕ) (xs : List RouteEntry)
    → m ≤ n
    → all (λ e. leb n (billionths e)) xs ≡ true
    → all (λ e. leb m (billionths e)) xs ≡ true
all-above m n [] h k = refl
all-above m n (x ∷ xs) h k = ground (arith, all-above m n xs)

insert_by-AllPriced :
    (x : RouteEntry) (xs : List RouteEntry)
    → IsPriced x
    → AllPriced xs
    → AllPriced (insert_by less_cost x xs)
unfolding insert_by
insert_by-AllPriced x [] h k = (h, tt)
insert_by-AllPriced x (y ∷ ys) h k = elim (Bool-cases (less_cost y x)) [
  | inl e ↦ rw e (k.0, insert_by-AllPriced x ys h k.1)
  | inr e ↦ rw e (h, k)
]

order_by-AllPriced : (xs : List RouteEntry) → AllPriced xs → AllPriced (order_by less_cost xs)
unfolding order_by
order_by-AllPriced [] h = tt
order_by-AllPriced (x ∷ xs) h = insert_by-AllPriced x _ h.0 (order_by-AllPriced xs h.1)

insert_by-IsAscending :
    (x : RouteEntry) (xs : List RouteEntry)
    → IsPriced x
    → AllPriced xs
    → IsAscending xs
    → IsAscending (insert_by less_cost x xs)
unfolding insert_by
insert_by-IsAscending x [] h k s = (refl, tt)
insert_by-IsAscending x (y ∷ ys) h k s = elim (Bool-cases (less_cost y x)) [
  | inl e ↦
      let le = less_cost-true y x k.0 h e in
      rw e (
        all-insert_by (λ z. leb (billionths y) (billionths z)) less_cost x ys ∙ ground (arith, s.0),
        insert_by-IsAscending x ys h k.1 s.1,
      )
  | inr e ↦
      let le = less_cost-false y x k.0 h e in
      let above = all-above (billionths x) (billionths y) ys le s.0 in rw e (ground arith, s)
]

pub order_by-IsAscending :
    (xs : List RouteEntry) → AllPriced xs → IsAscending (order_by less_cost xs)
unfolding order_by
order_by-IsAscending [] h = tt
order_by-IsAscending (x ∷ xs) h =
    insert_by-IsAscending x (order_by less_cost xs) h.0 (order_by-AllPriced xs h.1)
      (order_by-IsAscending xs h.1)

-- A test that every element which passes `p` costs at least `best`.
abbrev pub not_cheaper : (RouteEntry → Bool) → RouteEntry → RouteEntry → Bool
not_cheaper p best e = not (p e) || leb (billionths best) (billionths e)

not_cheaper-weaken :
    (p : RouteEntry → Bool) (best : RouteEntry) (xs : List RouteEntry)
    → all (λ e. leb (billionths best) (billionths e)) xs ≡ true
    → all (not_cheaper p best) xs ≡ true
not_cheaper-weaken p best [] h = refl
not_cheaper-weaken p best (x ∷ xs) h = ground (arith, not_cheaper-weaken p best xs)

-- The first that passes is the cheapest that passes.
pub first-cheapest :
    (p : RouteEntry → Bool) (xs : List RouteEntry) (best : RouteEntry) (others : List RouteEntry)
    → IsAscending xs
    → filter_by p xs ≡ best ∷ others
    → (p best ≡ true) × (all (not_cheaper p best) xs ≡ true)
unfolding filter_by
first-cheapest p [] best others s h = absurd (cc)
first-cheapest p (x ∷ xs) best others s h = elim (Bool-cases (p x)) [
  | inl e ↦
      let same : x ≡ best = ground arith in
      subst (λ b. (p b ≡ true) × (all (not_cheaper p b) (x ∷ xs) ≡ true)) same
        (e, ground (arith, not_cheaper-weaken p x xs s.0))
  | inr e ↦
      let (passes, rest) = first-cheapest p xs best others s.1 (ground arith) in
      (passes, ground arith)
]

-- The first that passes has what all have.
pub filter_by-first :
    (p q : RouteEntry → Bool) (xs : List RouteEntry) (best : RouteEntry) (others : List RouteEntry)
    → all q xs ≡ true
    → filter_by p xs ≡ best ∷ others
    → (p best ≡ true) × (q best ≡ true)
unfolding filter_by
filter_by-first p q [] best others h e = absurd (cc)
filter_by-first p q (x ∷ xs) best others h e = elim (Bool-cases (p x)) [
  | inl f ↦
      let same : x ≡ best = ground arith in
      subst (λ b. (p b ≡ true) × (q b ≡ true)) same (f, ground arith)
  | inr f ↦ filter_by-first p q xs best others (ground arith) (ground arith)
]
