-- ===== src/Risk.antt =====
-- backend/internal/platform/risk/risk.go: the signals of risk, counted by the PG limiter. The /24 or
-- /64 of an address, which Subnet prints, is not modelled.
pub mod Signals
mod Tests
use wf_all.Prelude.{
  ℕ, Bool, true, false, Option, none, some, List, [], ◌∷◌, ◌++◌, Text, codes, text_eq,
  if◌then◌else◌,
}
use wf_all.Prelude.Int.{ℤ, pos}
use wf_all.Ratelimit.{Policy, Invalid, validate, off}
use wf_all.Ratelimit.Store.{Table, Env, Fault, Outcome, failed, done, add, over}

-- The policies of an Assessor by signal.
abbrev pub Policies : Type 0
Policies = List (Text × Policy)

abbrev of_limit : ℕ → ℕ → Policy
of_limit n d = record { limit = pos n; period = pos d; allowance = pos 0 }

unfoldable pub default_policies : Policies
default_policies =
    (codes "login_failed", of_limit 5 900000000000)
    ∷ (codes "signup", of_limit 20 3600000000000)
    ∷ (codes "new_device", of_limit 3 86400000000000)
    ∷ (codes "activity", of_limit 120 60000000000)
    ∷ []

-- NewAssessor: `none` where it returns the policies, or the first signal whose policy is refused.
-- The order of a Go map is not fixed; here it is that of the table.
unfoldable pub new_assessor : Policies → Option (Text × Invalid)
new_assessor [] = none
new_assessor ((s, p) ∷ ps) =
    let rest = new_assessor ps in elim (validate p) [ none ↦ rest | some e ↦ some (s, e) ]

unfoldable pub lookup_policy : Policies → Text → Option Policy
lookup_policy [] signal = none
lookup_policy ((s, p) ∷ ps) signal = if text_eq s signal then some p else lookup_policy ps signal

unfoldable pub known : Option Policy → Option Policy
known none = none
known (some p) = if off p then none else some p

-- `none` is ErrUnknownSignal.
unfoldable pub policy : Policies → Text → Option Policy
unfolding known lookup_policy
policy ps signal = known (lookup_policy ps signal)

unfoldable pub risk_key : Text → Text → Text
risk_key signal key = codes "risk:" ++ (signal ++ (codes ":" ++ key))

pub data Assessed (A : Type 0) : Type 0 where
  unknown_signal : Assessed A
  limiter_failed : Fault → Assessed A
  assessed : A → Assessed A

abbrev from_limiter : {A : Type 0} → Outcome A → Assessed A
from_limiter (failed e) = limiter_failed e
from_limiter (done a) = assessed a

-- What follows one call of Over, where `rest` is what the other keys give.
unfoldable pub after_over : Outcome Bool → Assessed Bool → Assessed Bool
after_over (failed e) rest = limiter_failed e
after_over (done true) rest = assessed true
after_over (done false) rest = rest

unfoldable pub any_over : Env → Table → Text → Policy → List Text → Assessed Bool
unfolding after_over risk_key over
any_over env tab signal p [] = assessed false
any_over env tab signal p (k ∷ ks) =
    after_over (over env tab (risk_key signal k) p) (any_over env tab signal p ks)

unfoldable pub with_known : Env → Table → Text → List Text → Option Policy → Assessed Bool
unfolding any_over
with_known env tab signal keys none = unknown_signal
with_known env tab signal keys (some p) = any_over env tab signal p keys

unfoldable pub suspicious : Env → Table → Policies → Text → List Text → Assessed Bool
unfolding with_known policy
suspicious env tab ps signal keys = with_known env tab signal keys (policy ps signal)

module _ (micros : ℤ → ℕ) where
  record_known : Env → Table → Text → Text → Option Policy → Table × Assessed Unit
  unfolding add risk_key
  record_known env tab signal key none = (tab, unknown_signal)
  record_known env tab signal key (some p) =
      let (tab', o) = add micros env tab (risk_key signal key) p in (tab', from_limiter o)

  -- Record.
  unfoldable pub record_signal : Env → Table → Policies → Text → Text → Table × Assessed Unit
  unfolding record_known policy
  record_signal env tab ps signal key = record_known env tab signal key (policy ps signal)
