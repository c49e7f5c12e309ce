-- ===== src/Ratelimit/Window.antt =====
-- What `Validate` gives the limiter: an interval and a window in whole microseconds.
use wf_all.Prelude.{ℕ, zero, suc, ◌*◌, ◌/◌, ◌≤◌, ◌<◌, ◌≡◌, refl, false, none, arith}
use wf_all.Prelude.Int.{ℤ, pos, negsuc, wrap_64}
use native.Mathlib.Nat.{le-div_iff_mul-le}
use wf_all.Ratelimit.{Policy, off, interval, burst, window, validate, max_int64}

-- `t` is the interval and `b` the burst of a policy, in microseconds and requests; the window is
-- their product, as an integer without a wrap.
pub record Fits (p : Policy) : Type 0 where
  pub t : ℕ
  pub b : ℕ
  pub interval_eq : interval p ≡ pos (t * 1000)
  pub window_eq : window p ≡ pos (t * b * 1000)
  pub t_positive : 0 < t
  pub b_positive : 0 < b
  pub bound : t * b * 1000 ≤ max_int64

-- A product within int64 does not wrap.
wrap_64-fits : (n : ℕ) → n ≤ max_int64 → wrap_64 (pos n) ≡ pos n
wrap_64-fits n h = ground arith

product_bound : (t b : ℕ) → 0 < b → t * 1000 ≤ max_int64 / b → t * b * 1000 ≤ max_int64
product_bound t b hb h = omega (arith, (le-div_iff_mul-le hb).0 h)

shift : (t b : ℕ) → t * 1000 * b ≡ t * b * 1000
shift t b = omega arith

abbrev policy : ℤ → ℤ → ℤ → Policy
policy l d a = record { limit = l; period = d; allowance = a }

abbrev natural : ℕ → ℕ → ℕ → Policy
natural l d a = record { limit = pos l; period = pos d; allowance = pos a }

burst-cases : (l d a : ℕ) → 0 < l → (b : ℕ) × (burst (natural l d a) ≡ pos b) × (0 < b)
unfolding burst
burst-cases l d zero hl = (l, refl, hl)
burst-cases l d (suc a) hl = (suc a, ground arith, omega arith)

-- The guards of `Validate`, once they are all passed.
natural-Fits :
    (l d a b : ℕ)
    → burst (natural l d a) ≡ pos b
    → 0 < b
    → 0 < l
    → 0 < d / l / 1000
    → d / l / 1000 * 1000 ≤ max_int64 / b
    → Fits (natural l d a)
unfolding interval window
natural-Fits l d a b e hb hl ht h = record {
  t = d / l / 1000;
  b = b;
  interval_eq = refl;
  window_eq = rw e (
      rw (shift (d / l / 1000) b)
        (wrap_64-fits (d / l / 1000 * b * 1000) (product_bound (d / l / 1000) b hb h)));
  t_positive = ht;
  b_positive = hb;
  bound = product_bound (d / l / 1000) b hb h;
}

guards :
    (l d a b : ℕ)
    → burst (natural l d a) ≡ pos b
    → validate (natural l d a) ≡ none
    → off (natural l d a) ≡ false
    → (0 < d / l / 1000) × (d / l / 1000 * 1000 ≤ max_int64 / b)
unfolding validate interval off
guards l d a b e h o = ground arith

Fits-policy :
    (l d a : ℤ) → validate (policy l d a) ≡ none → off (policy l d a) ≡ false → Fits (policy l d a)
unfolding validate off
Fits-policy (pos zero) d a h o = absurd (ground arith)
Fits-policy (pos (suc l)) (pos d) (pos a) h o =
    let (b, e, hb) = burst-cases (suc l) d a (omega arith) in
    let (ht, hw) = guards (suc l) d a b e h o in natural-Fits (suc l) d a b e hb (omega arith) ht hw
Fits-policy (pos (suc l)) (pos d) (negsuc a) h o = absurd (ground arith)
Fits-policy (pos (suc l)) (negsuc d) a h o = absurd (ground arith)
Fits-policy (negsuc l) d a h o = absurd (ground arith)

-- Validate accepts a policy that is on only if its interval is a positive number of whole microseconds
-- and its window, the interval times a positive burst, is within int64: window does not wrap.
pub validate-Fits : (p : Policy) → validate p ≡ none → off p ≡ false → Fits p
validate-Fits p h o = Fits-policy p.limit p.period p.allowance h o
