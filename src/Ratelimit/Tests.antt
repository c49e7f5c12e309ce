-- ===== src/Ratelimit/Tests.antt =====
-- The limiter on concrete inputs.
use wf_all.Prelude.{
  ℕ, ◌*◌, ◌/◌, ◌≤◌, ◌≡◌, refl, true, false, none, some, List, [], ◌∷◌, Text, codes, arith, max, leb,
  ◌+◌,
}
use wf_all.Prelude.Int.{ℤ, pos, pos_part}
use wf_all.Ratelimit.{Policy, validate, off, window, interval}
use wf_all.Ratelimit.Window.{Fits, validate-Fits}
use wf_all.Ratelimit.Store.{Table, Env, done, allow, over, get_tat, delete_expired}
use wf_all.Ratelimit.Limits.{Exact, Narrow, passes, over-allow}
use wf_all.Ratelimit.Retry.{allow-retry}
use wf_all.Ratelimit.Rate.{Call, allow_call, clean_call, count, count-le, ordered}
use wf_all.Ratelimit.Keys.{for_ip, key_of-injective, no_colon}
use wf_all.Ratelimit.Rules.{default_rules}
use wf_all.Ratelimit.Parse.{parse_rules}
use wf_all.Ratelimit.Accepted.{AreValid, YieldsValid, parse_rules-YieldsValid}
use wf_all.Ratelimit.Middleware.{Request, middleware}
use wf_all.Ratelimit.Answers.{Fine, middleware-Fine}
use wf_all.Ratelimit.Cleanup.{IsKeyed, delete_expired-allow}

-- Six requests a minute, two in a row.
abbrev six : Policy
six = record { limit = pos 6; period = pos 60000000000; allowance = pos 2 }

abbrev to_micros : ℤ → ℕ
to_micros d = pos_part d / 1000

to_micros-Exact : Exact to_micros
unfolding Exact
to_micros-Exact k h = omega arith

six-valid : validate six ≡ none
unfolding validate
six-valid = refl

six-on : off six ≡ false
unfolding off
six-on = refl

six-Narrow : Narrow six
unfolding Narrow window
six-Narrow = (20000000, refl, omega arith)

abbrev at : ℕ → Env
at now = record { now = now; fails = λ _. false; meanwhile = λ tab. tab }

abbrev key : Text
key = codes "ip:auth:1.2.3.4"

-- The key is at 25 s, the clock at 1 s.
abbrev spent : Table
spent = (key, 25000000) ∷ []

get_tat-spent : get_tat spent key ≡ some 25000000
unfolding get_tat
get_tat-spent = refl

spent-refused : passes (allow to_micros (at 1000000000) spent key six).1 ≡ false
unfolding allow
spent-refused = refl

validate-Fits_example : Fits six
validate-Fits_example = validate-Fits six six-valid six-on

over-allow_example : over (at 1000000000) spent key six ≡ done true
unfolding allow
over-allow_example =
    over-allow to_micros to_micros-Exact (at 1000000000) (λ _. refl) spent key six six-valid six-on
      six-Narrow

allow-retry_example :
    (d : ℕ) × (allow to_micros (at 1000000000) spent key six
      ≡ (spent, done (record { allowed = false; retry_after = pos (max 1000000 d) })))
    × (passes (allow to_micros (at 15000000000) spent key six).1 ≡ leb (1000000000 + d) 15000000000)
allow-retry_example =
    allow-retry to_micros to_micros-Exact (at 1000000000) (at 15000000000) (λ _. refl) (λ _. refl)
      (omega arith) spent refl key 25000000 get_tat-spent (omega arith) six six-valid six-on
      six-Narrow spent-refused

abbrev calls : List Call
calls =
    allow_call 1000000000 (λ _. false) key
    ∷ allow_call 1000000000 (λ _. false) key
    ∷ allow_call 2000000000 (λ _. false) key
    ∷ clean_call 40000000000 10
    ∷ allow_call 41000000000 (λ _. false) key
    ∷ []

calls-ordered : ordered 1000000000 50000000000 calls ≡ true
unfolding ordered
calls-ordered = refl

-- Three of the four requests pass.
count-calls : count to_micros (λ _. six) key calls [] ≡ 3
unfolding count allow delete_expired
count-calls = refl

count-le_example :
    (t w : ℕ) × (interval six ≡ pos (t * 1000))
    × (window six ≡ pos (w * 1000))
    × (1000000000 / 1000 + count to_micros (λ _. six) key calls [] * t ≤ 50000000000 / 1000 + w)
count-le_example =
    count-le to_micros (λ _. six) key to_micros-Exact six-valid six-on six-Narrow calls []
      1000000000 50000000000 calls-ordered

key_of-injective_example :
    (codes "auth" ≡ codes "auth") × (for_ip (codes "::1") ≡ for_ip (codes "::1"))
unfolding no_colon
key_of-injective_example =
    key_of-injective (codes "auth") (codes "auth") (for_ip (codes "::1")) (for_ip (codes "::1"))
      refl refl refl

default_rules-AreValid : AreValid default_rules
unfolding default_rules validate
default_rules-AreValid =
    ((refl, refl, refl), ((refl, refl, refl), ((refl, refl, refl), ((refl, refl, refl), tt))))

parse_rules-YieldsValid_example : YieldsValid (
    parse_rules
      (λ _. some (pos 30))
      (λ _. some (pos 60000000000))
      (codes "auth.ip=30/1m:30")
      default_rules)
parse_rules-YieldsValid_example =
    parse_rules-YieldsValid (λ _. some (pos 30)) (λ _. some (pos 60000000000))
      (codes "auth.ip=30/1m:30") default_rules default_rules-AreValid

abbrev visit : Request
visit = record {
  route = some (codes "auth");
  peer_ip = some (codes "1.2.3.4");
  peer_device = [];
  context = record { staff_value = none; principal_value = none };
}

middleware-Fine_example :
    Fine (middleware (λ _. codes "id") (allow to_micros (at 1000000000)) default_rules spent visit)
middleware-Fine_example =
    middleware-Fine (λ _. codes "id") to_micros (at 1000000000) (λ _. refl) default_rules
      default_rules-AreValid spent visit

spent-IsKeyed : IsKeyed spent
unfolding IsKeyed get_tat
spent-IsKeyed = (refl, tt)

delete_expired-allow_example :
    passes (allow to_micros (at 30000000000) (delete_expired 30000000 10 spent).0 key six).1
    ≡ passes (allow to_micros (at 30000000000) spent key six).1
delete_expired-allow_example =
    delete_expired-allow to_micros to_micros-Exact (at 30000000000) (λ _. refl) 30000000 10
      (omega arith) spent spent-IsKeyed key six six-valid six-on six-Narrow
