-- ===== src/Store/Query.antt =====
-- The clauses of the SQL queries over a table: WHERE, ORDER BY, LIMIT, MIN and COUNT.
use vtessera.Common.{
  ℕ, ◌≡◌, refl, ap, ◌∙◌, inl, inr, Bool-cases, Bool, true, false, Option, none, some, List, [], ◌∷◌,
  ◌++◌, min, if◌then◌else◌,
}

module _ {ℓ} {A : Type ℓ} where
  unfoldable pub filter_by : (A → Bool) → List A → List A
  filter_by p [] = []
  filter_by p (x ∷ xs) = let rest = filter_by p xs in if p x then x ∷ rest else rest

  unfoldable pub find_by : (A → Bool) → List A → Option A
  find_by p [] = none
  find_by p (x ∷ xs) = let rest = find_by p xs in if p x then some x else rest

  unfoldable pub exists_by : (A → Bool) → List A → Bool
  exists_by p [] = false
  exists_by p (x ∷ xs) = let rest = exists_by p xs in if p x then true else rest

  -- The rows that pass are changed, the others stay.
  unfoldable pub update_by : (A → Bool) → (A → A) → List A → List A
  update_by p f [] = []
  update_by p f (x ∷ xs) = (if p x then f x else x) ∷ update_by p f xs

  unfoldable pub insert_by : (A → A → Bool) → A → List A → List A
  insert_by before x [] = x ∷ []
  insert_by before x (y ∷ ys) =
      let rest = insert_by before x ys in if before y x then y ∷ rest else x ∷ y ∷ ys

  -- `before y x` holds where `y` comes first.
  unfoldable pub order_by : (A → A → Bool) → List A → List A
  unfolding insert_by
  order_by before [] = []
  order_by before (x ∷ xs) = insert_by before x (order_by before xs)

  -- The least of a column, NULL (`none`) for no row.
  unfoldable pub min_by : (A → ℕ) → List A → Option ℕ
  min_by f [] = none
  min_by f (x ∷ xs) = elim (min_by f xs) [ none ↦ some (f x) | some n ↦ some (min (f x) n) ]

unfoldable pub collect {ℓ κ} : {A : Type ℓ} {B : Type κ} → (A → B) → List A → List B
collect f [] = []
collect f (x ∷ xs) = f x ∷ collect f xs

module _ {ℓ} {A : Type ℓ} where
  pub filter_by_ext :
      (p q : A → Bool) (xs : List A) → ((x : A) → p x ≡ q x) → filter_by p xs ≡ filter_by q xs
  unfolding filter_by
  filter_by_ext p q [] h = refl
  filter_by_ext p q (x ∷ xs) h = rw (h x, filter_by_ext p q xs h) refl

  pub filter_by-append :
      (p : A → Bool) (xs ys : List A) → filter_by p (xs ++ ys) ≡ filter_by p xs ++ filter_by p ys
  unfolding filter_by
  filter_by-append p [] ys = refl
  filter_by-append p (x ∷ xs) ys = elim (Bool-cases (p x)) [
    | inl e ↦ rw e (ap (◌∷◌ x) (filter_by-append p xs ys))
    | inr e ↦ rw e (filter_by-append p xs ys)
  ]

  -- A row that does not pass adds nothing.
  pub filter_by-append_out :
      (p : A → Bool) (xs : List A) (x : A)
      → p x ≡ false
      → filter_by p (xs ++ (x ∷ [])) ≡ filter_by p xs
  unfolding filter_by
  filter_by-append_out p [] x h = rw h refl
  filter_by-append_out p (y ∷ xs) x h = elim (Bool-cases (p y)) [
    | inl e ↦ rw e (ap (◌∷◌ y) (filter_by-append_out p xs x h))
    | inr e ↦ rw e (filter_by-append_out p xs x h)
  ]

  pub filter_by-append_in :
      (p : A → Bool) (xs : List A) (x : A)
      → p x ≡ true
      → filter_by p (xs ++ (x ∷ [])) ≡ filter_by p xs ++ (x ∷ [])
  unfolding filter_by
  filter_by-append_in p xs x h = filter_by-append p xs (x ∷ []) ∙ rw h refl

pub collect-append {ℓ κ} :
    {A : Type ℓ} {B : Type κ} (f : A → B) (xs ys : List A)
    → collect f (xs ++ ys) ≡ collect f xs ++ collect f ys
unfolding collect
collect-append f [] ys = refl
collect-append f (x ∷ xs) ys = ap (◌∷◌ (f x)) (collect-append f xs ys)
