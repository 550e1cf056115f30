-- ===== src/Trade/Confirm/Backoff.antt =====
-- internal/trade/settlement.go: the delays of `delayFor`.
use vtessera.Common.{ℕ, zero, suc, ◌-◌, ◌*◌, ◌%◌, ◌^◌, ◌<◌, ◌≡◌, sym, ◌∙◌, min, true, arith}
use native.Mathlib.Nat.{pow-succ', le-mul_of_pos_right}
use native.Mathlib.Numerals.{unary_clauses}
use vtessera.Trade.Monad.{ConfirmPolicy}
use vtessera.Trade.Confirm.{duration_half, duration_size, is_positive, double, delay_for}

pow_pos : (n : ℕ) → 0 < 2 ^ n
pow_pos zero = omega arith
pow_pos (suc n) = simp unary_clauses (omega (arith, pow_pos n))

doubled : (delay q : ℕ) → delay * (2 * q) ≡ (2 * delay) * q
doubled delay q = grind arith

below_doubled : (delay q top : ℕ) → 0 < q → delay * (2 * q) < top → 2 * delay < top
below_doubled delay q top p h = omega (arith, doubled delay q, le-mul_of_pos_right (2 * delay) p)

-- Without an overflow the loop doubles once a round.
double-exact :
    (n delay : ℕ) → 0 < delay → delay * 2 ^ n < duration_half → double n delay ≡ delay * 2 ^ n
unfolding double
double-exact zero delay p h = omega arith
double-exact (suc n) delay p h =
    let e : 2 ^ suc n ≡ 2 * 2 ^ n = pow-succ' 2 n in
    let h' : delay * (2 * 2 ^ n) < duration_half = rw e at h in
    let small = below_doubled delay (2 ^ n) duration_half (pow_pos n) h' in
    let fits : 2 * delay % duration_size ≡ 2 * delay = omega arith in
    let goes_on : is_positive delay ≡ true = ground arith in
    rw (e, goes_on, fits)
      (double-exact n (2 * delay) (omega arith) (rw (doubled delay (2 ^ n)) at h')
        ∙ sym (doubled delay (2 ^ n)))

-- The delay doubles from one attempt to the next, up to the limit.
pub delay_for-exact :
    (p : ConfirmPolicy) (attempt : ℕ)
    → 0 < p.backoff
    → 0 < p.max_delay
    → p.max_delay < duration_half
    → p.backoff * 2 ^ (attempt - 1) < duration_half
    → delay_for p attempt ≡ min (p.backoff * 2 ^ (attempt - 1)) p.max_delay
unfolding delay_for
delay_for-exact p attempt b m l h =
    let positive : 0 < p.backoff * 2 ^ (attempt - 1) =
      omega (arith, le-mul_of_pos_right p.backoff (pow_pos (attempt - 1))) in
    rw (double-exact (attempt - 1) p.backoff b h) (ground arith)
