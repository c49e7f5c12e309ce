-- ===== src/Ratelimit/Rules.antt =====
-- backend/internal/platform/ratelimit/rules.go: the policies of the classes, the defaults, Validate
-- and ParseRules. strconv.Atoi and time.ParseDuration are arguments, with `none` for an error. The
-- order of the messages that Validate joins is that of the table.
use wf_all.Prelude.{
  ℕ, Bool, false, ◌&&◌, ◌||◌, Option, none, some, List, [], ◌∷◌, ◌++◌, Text, codes, text_eq, ◌==◌,
  between, if◌then◌else◌, all,
}
use wf_all.Prelude.Int.{pos}
use wf_all.Ratelimit.{Policy, Invalid, no_policy, validate}

pub record ClassPolicy : Type 0 where
  pub ip : Policy
  pub user : Policy
  pub device : Policy

abbrev pub Rules : Type 0
Rules = List (Text × ClassPolicy)

abbrev pub no_class : ClassPolicy
no_class = record { ip = no_policy; user = no_policy; device = no_policy }

unfoldable pub default_class : Text
default_class = codes "default"

unfoldable pub lookup_rule : Rules → Text → Option ClassPolicy
lookup_rule [] class = none
lookup_rule ((k, cp) ∷ r) class = if text_eq k class then some cp else lookup_rule r class

-- A map's value at a key that may be missing.
abbrev pub class_or_zero : Option ClassPolicy → ClassPolicy
class_or_zero none = no_class
class_or_zero (some cp) = cp

unfoldable pub put_rule : Rules → Text → ClassPolicy → Rules
put_rule [] class cp = (class, cp) ∷ []
put_rule ((k, old) ∷ r) class cp =
    if text_eq k class then (k, cp) ∷ r else (k, old) ∷ put_rule r class cp

per_minute : ℕ → ℕ → Policy
per_minute n b = record { limit = pos n; period = pos 60000000000; allowance = pos b }

unfoldable pub default_rules : Rules
unfolding default_class per_minute
default_rules =
    (
      default_class,
      record { ip = per_minute 600 120; user = per_minute 300 60; device = per_minute 300 60 },
    )
    ∷ (codes "auth", record { ip = per_minute 60 20; user = no_policy; device = per_minute 20 10 })
    ∷ (codes "geo_nearest", record { ip = per_minute 30 10; user = no_policy; device = no_policy })
    ∷ (
      codes "staff_auth",
      record { ip = per_minute 30 15; user = per_minute 20 10; device = no_policy },
    )
    ∷ []

pub data RuleError : Type 0 where
  no_default : RuleError
  bad_policy : (class key : Text) → Invalid → RuleError

policy_errors : Text → Text → Option Invalid → List RuleError
policy_errors class key none = []
policy_errors class key (some e) = bad_policy class key e ∷ []

class_errors : Rules → List RuleError
unfolding policy_errors
class_errors [] = []
class_errors ((class, cp) ∷ r) =
    policy_errors class (codes "ip") (validate cp.ip)
    ++ (policy_errors class (codes "user") (validate cp.user)
        ++ (policy_errors class (codes "device") (validate cp.device) ++ class_errors r))

default_errors : Option ClassPolicy → List RuleError
default_errors none = no_default ∷ []
default_errors (some cp) = []

unfoldable pub validate_rules : Rules → List RuleError
unfolding default_errors lookup_rule class_errors default_class
validate_rules r = default_errors (lookup_rule r default_class) ++ class_errors r

-- strings.SplitSeq by one character, and strings.Cut at one.
push : ℕ → List Text → List Text
push c [] = (c ∷ []) ∷ []
push c (s ∷ ss) = (c ∷ s) ∷ ss

unfoldable pub split : ℕ → Text → List Text
unfolding push
split sep [] = [] ∷ []
split sep (c ∷ s) = let rest = split sep s in if c == sep then [] ∷ rest else push c rest

cut_next : ℕ → Option (Text × Text) → Option (Text × Text)
cut_next c none = none
cut_next c (some (a, b)) = some (c ∷ a, b)

unfoldable pub cut : ℕ → Text → Option (Text × Text)
unfolding cut_next
cut sep [] = none
cut sep (c ∷ s) = let rest = cut sep s in if c == sep then some ([], s) else cut_next c rest

abbrev pub is_digit : ℕ → Bool
is_digit c = between 48 57 c

abbrev pub is_lower : ℕ → Bool
is_lower c = between 97 122 c

-- classRe.
unfoldable pub is_class : Text → Bool
is_class [] = false
is_class (c ∷ s) = is_lower c && all (λ d. is_lower d || is_digit d || d == 95) s
