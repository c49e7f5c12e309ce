-- ===== src/Ratelimit.antt =====
-- backend/internal/platform/ratelimit/limiter.go: the policy of a limit. Durations are nanoseconds;
-- Go's int and time.Duration are ℤ, with the wrap of int64 where the code multiplies.
pub mod Window
pub mod Store
pub mod Limits
pub mod Retry
pub mod Rows
pub mod Rate
pub mod Keys
pub mod Rules
pub mod Parse
pub mod Accepted
pub mod Middleware
pub mod Answers
pub mod Cleanup
mod Tests
use wf_all.Prelude.{ℕ, Bool, true, false, ◌&&◌, Option, none, some, ltb, ◌==◌, if◌then◌else◌}
use wf_all.Prelude.Int.{ℤ, pos, negsuc, ltb_ℤ, quot_ℤ, mul_ℤ, wrap_64}

pub record Policy : Type 0 where
  pub limit : ℤ
  pub period : ℤ
  pub allowance : ℤ

pub data Invalid : Type 0 where
  bad_limit bad_period bad_burst short_interval wide_window : Invalid

abbrev is_zero : ℤ → Bool
is_zero (pos n) = n == 0
is_zero (negsuc n) = false

abbrev pub no_policy : Policy
no_policy = record { limit = pos 0; period = pos 0; allowance = pos 0 }

abbrev pub microsecond : ℤ
microsecond = pos 1000

abbrev pub max_int64 : ℕ
max_int64 = 9223372036854775807

unfoldable pub off : Policy → Bool
off p = is_zero p.limit

-- T: the period over the limit, cut to whole microseconds by Truncate.
unfoldable pub interval : Policy → ℤ
interval p = mul_ℤ (quot_ℤ (quot_ℤ p.period p.limit) microsecond) microsecond

unfoldable pub burst : Policy → ℤ
burst p = if ltb_ℤ (pos 0) p.allowance then p.allowance else p.limit

unfoldable pub window : Policy → ℤ
unfolding interval burst
window p = wrap_64 (mul_ℤ (interval p) (burst p))

is_no_policy : Policy → Bool
is_no_policy p = is_zero p.limit && is_zero p.period && is_zero p.allowance

-- The cases of the `switch`, in its order; `none` is a nil error.
unfoldable pub validate : Policy → Option Invalid
unfolding is_no_policy interval burst
validate p =
    if is_no_policy p
    then none
    else if ltb_ℤ p.limit (pos 1)
    then some bad_limit
    else if ltb_ℤ p.period (pos 1)
    then some bad_period
    else if ltb_ℤ p.allowance (pos 0)
    then some bad_burst
    else if ltb_ℤ (interval p) (pos 1)
    then some short_interval
    else if ltb_ℤ (quot_ℤ (pos max_int64) (burst p)) (interval p)
    then some wide_window
    else none

-- What `check` returns: an invalid policy, a policy that is off, or one to apply.
pub data Checked : Type 0 where
  refused : Invalid → Checked
  not_limited limited : Checked

checked : Option Invalid → Bool → Checked
checked (some e) o = refused e
checked none true = not_limited
checked none false = limited

unfoldable pub check : Policy → Checked
unfolding checked validate off
check p = checked (validate p) (off p)
