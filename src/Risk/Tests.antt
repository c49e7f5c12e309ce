-- ===== src/Risk/Tests.antt =====
-- The signals on concrete inputs.
use wf_all.Prelude.{
  ℕ, ◌/◌, ◌≡◌, refl, false, not, none, some, List, [], ◌∷◌, Text, codes, any, arith,
}
use wf_all.Prelude.Int.{ℤ, pos, pos_part}
use wf_all.Ratelimit.{Policy, validate, window, off}
use wf_all.Ratelimit.Store.{Table, Env, allow}
use wf_all.Ratelimit.Limits.{Exact, Narrow, passes}
use wf_all.Risk.{default_policies, new_assessor, policy, risk_key, assessed, suspicious}
use wf_all.Risk.Signals.{suspicious-allow}

abbrev to_micros : ℤ → ℕ
to_micros d = pos_part d / 1000

to_micros-Exact : Exact to_micros
unfolding Exact
to_micros-Exact k h = omega arith

-- Five failed logins in a quarter of an hour.
abbrev five : Policy
five = record { limit = pos 5; period = pos 900000000000; allowance = pos 0 }

abbrev clock : Env
clock = record { now = 1000000000; fails = λ _. false; meanwhile = λ tab. tab }

abbrev tried : Table
tried = (codes "risk:login_failed:ann", 901000000) ∷ []

abbrev keys : List Text
keys = codes "bob" ∷ codes "ann" ∷ []

default_policies-accepted : new_assessor default_policies ≡ none
unfolding new_assessor default_policies validate
default_policies-accepted = refl

policy-login_failed : policy default_policies (codes "login_failed") ≡ some five
unfolding policy default_policies off
policy-login_failed = refl

five-Narrow : Narrow five
unfolding Narrow window
five-Narrow = (900000000, refl, omega arith)

suspicious-allow_example :
    suspicious clock tried default_policies (codes "login_failed") keys
    ≡ assessed (
        any
          (λ k.
            not (passes (allow to_micros clock tried (risk_key (codes "login_failed") k) five).1))
          keys)
suspicious-allow_example =
    suspicious-allow to_micros to_micros-Exact clock (λ _. refl) tried default_policies
      (codes "login_failed") keys five default_policies-accepted policy-login_failed five-Narrow
