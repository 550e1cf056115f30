-- ===== src/Limits/Caps.antt =====
-- The caps of an agent (internal/limits/limits.go) against the deployment's defaults and ceilings.
use native.Mathlib.Nat.{max_comm}
use vtessera.Common.{
  ◌≡◌, refl, Option, some, none, arith, Bool, true, false, not, ok, String, Ordering, [], ◌∷◌,
  length, ◌&&◌,
}
use vtessera.Bytes.{Bytes, compare_bytes, cut}
use vtessera.Money.{Amount, cmp, is_zero}
use vtessera.Limits.{
  Policy, Limits, effective, check, validate, check_bound, is_greater, is_less, default_limits,
  raise_trade, raise_day,
}

compare_bytes-swap :
    (xs ys : Bytes) → is_greater (compare_bytes xs ys) ≡ is_less (compare_bytes ys xs)
unfolding compare_bytes
compare_bytes-swap [] [] = refl
compare_bytes-swap [] (y ∷ ys) = refl
compare_bytes-swap (x ∷ xs) [] = refl
compare_bytes-swap (x ∷ xs) (y ∷ ys) = ground (arith, compare_bytes-swap xs ys)

-- `a > b` and `b < a` are one test.
pub cmp-swap : (a b : Amount) → is_greater (cmp a b) ≡ is_less (cmp b a)
unfolding cmp
cmp-swap a b =
    rw
      (
        max_comm (length (cut b'.' a.value).0) (length (cut b'.' b.value).0),
        max_comm (length (cut b'.' a.value).1) (length (cut b'.' b.value).1),
      )
      (compare_bytes-swap _ _)

compare_bytes_self : (xs : Bytes) → compare_bytes xs xs ≡ Ordering.eq
unfolding compare_bytes
compare_bytes_self [] = refl
compare_bytes_self (x ∷ xs) = ground (arith, compare_bytes_self xs)

cmp_self : (a : Amount) → cmp a a ≡ Ordering.eq
unfolding cmp
cmp_self a = compare_bytes_self _

not_less_of_greater : (a b : Amount) → is_greater (cmp a b) ≡ true → is_less (cmp a b) ≡ false
not_less_of_greater a b h = ground arith

-- Whatever the store says of an agent, its caps are not below the deployment's defaults.
pub effective-ge_default :
    (p : Policy) (agent_id : String)
    → (is_less (cmp (effective p agent_id).per_trade p.per_trade) ≡ false)
      × (is_less (cmp (effective p agent_id).per_day p.per_day) ≡ false)
unfolding effective
effective-ge_default p agent_id = ground (arith, cmp_self p.per_trade, cmp_self p.per_day)

-- The test of a cap against a ceiling that is set.
abbrev pub passes : Amount → Amount → Bool
passes cap ceiling = not (is_zero ceiling) && is_greater (cmp cap ceiling)

check-ok :
    (p : Policy) (t d : Amount)
    → check p t d ≡ ok tt
    → (passes t p.ceiling_per_trade ≡ false) × (passes d p.ceiling_per_day ≡ false)
unfolding check
check-ok p t d h = ground arith

check_bound-ok :
    (value bounded : Amount) → check_bound value bounded ≡ ok tt → passes bounded value ≡ false
unfolding check_bound
check_bound-ok value bounded h = ground (arith, cmp-swap bounded value)

validate-ok :
    (p : Policy)
    → validate p ≡ ok tt
    → (check_bound p.ceiling_per_trade p.per_trade ≡ ok tt)
      × (check_bound p.ceiling_per_day p.per_day ≡ ok tt)
unfolding validate
validate-ok p h = ground arith

effective_stored :
    (p : Policy) (agent_id : String) (f : String → Option (Amount × Amount)) (t d : Amount)
    → p.per_agent_overrides ≡ some f
    → f agent_id ≡ some (t, d)
    → effective p agent_id ≡ raise_day p d (raise_trade p t (default_limits p))
unfolding effective
effective_stored p agent_id f t d o e = rw (o, effective) (rw e)

raise_trade-passes :
    (p : Policy) (t : Amount) (out : Limits)
    → passes t p.ceiling_per_trade ≡ false
    → passes out.per_trade p.ceiling_per_trade ≡ false
    → passes (raise_trade p t out).per_trade p.ceiling_per_trade ≡ false
unfolding raise_trade
raise_trade-passes p t out h k = ground arith

raise_day-passes :
    (p : Policy) (d : Amount) (out : Limits)
    → passes d p.ceiling_per_day ≡ false
    → passes out.per_day p.ceiling_per_day ≡ false
    → passes (raise_day p d out).per_day p.ceiling_per_day ≡ false
unfolding raise_day
raise_day-passes p d out h k = ground arith

raise_day-trade :
    (p : Policy) (d : Amount) (out : Limits) → (raise_day p d out).per_trade ≡ out.per_trade
unfolding raise_day
raise_day-trade p d out = ground arith

raise_trade-day :
    (p : Policy) (t : Amount) (out : Limits) → (raise_trade p t out).per_day ≡ out.per_day
unfolding raise_trade
raise_trade-day p t out = ground arith

-- A policy that validates, and an opt-in that `Check` let through when it was stored, give caps
-- that do not pass a ceiling that is set.
pub effective-le_ceiling :
    (p : Policy) (agent_id : String) (f : String → Option (Amount × Amount)) (t d : Amount)
    → validate p ≡ ok tt
    → p.per_agent_overrides ≡ some f
    → f agent_id ≡ some (t, d)
    → check p t d ≡ ok tt
    → (passes (effective p agent_id).per_trade p.ceiling_per_trade ≡ false)
      × (passes (effective p agent_id).per_day p.ceiling_per_day ≡ false)
effective-le_ceiling p agent_id f t d v o e c =
    let (vt, vd) = validate-ok p v in
    let (ct, cd) = check-ok p t d c in
    let bt = check_bound-ok p.ceiling_per_trade p.per_trade vt in
    let bd = check_bound-ok p.ceiling_per_day p.per_day vd in
    rw (effective_stored p agent_id f t d o e) (
      rw (raise_day-trade p d (raise_trade p t (default_limits p)))
          (raise_trade-passes p t (default_limits p) ct bt),
      raise_day-passes p d (raise_trade p t (default_limits p)) cd
          (rw (raise_trade-day p t (default_limits p)) bd),
    )

-- An agent that opted in to nothing has the defaults, which a policy that validates holds to its
-- ceilings.
pub effective-default_le_ceiling :
    (p : Policy) (agent_id : String) (f : String → Option (Amount × Amount))
    → validate p ≡ ok tt
    → p.per_agent_overrides ≡ some f
    → f agent_id ≡ none
    → (passes (effective p agent_id).per_trade p.ceiling_per_trade ≡ false)
      × (passes (effective p agent_id).per_day p.ceiling_per_day ≡ false)
unfolding effective
effective-default_le_ceiling p agent_id f v o e =
    let (vt, vd) = validate-ok p v in
    let bt = check_bound-ok p.ceiling_per_trade p.per_trade vt in
    let bd = check_bound-ok p.ceiling_per_day p.per_day vd in (ground (arith), ground (arith))
