-- ===== src/Trade/Monad/Runs.antt =====
-- The runs of a method, step by step.
use vtessera.Common.{
  ◌≡◌, refl, Bool, true, false, Option, none, some, Result, ok, err, arith, inl, inr, Result-cases,
}
use vtessera.Store.{Db, StoreError}
use vtessera.Trade.Monad.{
  TradeError, World, M, throw_if, gets, or_throw, lift, write, pure, ◌>>=◌, ◌>>◌,
}

module _ {L B : Type 0} where
  -- Both runs end alike.
  pub throw_if-then :
      (b : Bool) (e : TradeError) (f : Unit {0} → M L B) (w : World L) {x : B}
      → ((throw_if b e >>= f) w).0 ≡ ok x
      → (b ≡ false) × ((throw_if b e >>= f) w ≡ f tt w)
  unfolding ◌>>=◌
  throw_if-then true e f w h = absurd (cc)
  throw_if-then false e f w h = (refl, refl)

  pub lift-then :
      {A : Type 0} (r : Result TradeError A) (f : A → M L B) (w : World L) {x : B}
      → ((lift r >>= f) w).0 ≡ ok x
      → (a : A) × (r ≡ ok a) × ((lift r >>= f) w ≡ f a w)
  unfolding ◌>>=◌
  lift-then (ok a) f w h = (a, refl, refl)
  lift-then (err e) f w h = absurd (cc)

  pub or_throw-then :
      {A : Type 0} (o : Option A) (e : TradeError) (f : A → M L B) (w : World L) {x : B}
      → ((or_throw o e >>= f) w).0 ≡ ok x
      → (a : A) × (o ≡ some a) × ((or_throw o e >>= f) w ≡ f a w)
  unfolding ◌>>=◌
  or_throw-then none e f w h = absurd (cc)
  or_throw-then (some a) e f w h = (a, refl, refl)

  pub gets-then :
      {A : Type 0} (g : Db → A) (f : A → M L B) (w : World L) → (gets g >>= f) w ≡ f (g w.db) w
  unfolding ◌>>=◌
  gets-then g f w = refl

  -- A step that failed with the state untouched ends the run so.
  pub bind-failed :
      {A : Type 0} (m : M L A) (f : A → M L B) (w : World L) (e : TradeError)
      → m w ≡ (err e, w)
      → (m >>= f) w ≡ (err e, w)
  unfolding ◌>>=◌
  bind-failed m f w e h = rw (h, ◌>>=◌) refl

  pub bind-passed :
      {A : Type 0} (m : M L A) (f : A → M L B) (w : World L) (a : A)
      → m w ≡ (ok a, w)
      → (m >>= f) w ≡ f a w
  unfolding ◌>>=◌
  bind-passed m f w a h = rw (h, ◌>>=◌) refl

  pub bind-ok :
      {A : Type 0} (m : M L A) (f : A → M L B) (w : World L) {x : B}
      → ((m >>= f) w).0 ≡ ok x
      → (a : A) × ((m w).0 ≡ ok a) × ((m >>= f) w ≡ f a (m w).1)
  unfolding ◌>>=◌
  bind-ok m f w h = elim (Result-cases (m w).0) [
    | inl (a, e) ↦ (a, e, rw e refl)
    | inr (x, e) ↦ absurd (ground arith)
  ]

  -- The end of a run that writes once more and returns.
  pub write-then :
      (g : Db → Result StoreError Db) (a : B) (w : World L) {x : B}
      → ((write g >> pure a) w).0 ≡ ok x
      → (x ≡ a) × (((write g >> pure a) w).1.ledger ≡ w.ledger)
  unfolding ◌>>=◌
  write-then g a w h = elim (Result-cases (g w.db)) [
    | inl (db, e) ↦ (ground arith, ground arith)
    | inr (y, e) ↦ absurd (ground arith)
  ]
