-- ===== src/Ratelimit/Parse.antt =====
-- backend/internal/platform/ratelimit/rules.go: ParseRules. strconv.Atoi and time.ParseDuration are
-- arguments, with `none` for an error.
use wf_all.Prelude.{
  Bool, true, false, not, ◌&&◌, ◌||◌, Option, none, some, List, [], ◌∷◌, Text, codes, text_eq,
  if◌then◌else◌, all, is_empty, trim,
}
use wf_all.Prelude.Int.{ℤ, pos}
use wf_all.Ratelimit.{Policy, Invalid, no_policy, validate, off}
use wf_all.Ratelimit.Rules.{
  ClassPolicy, Rules, lookup_rule, class_or_zero, put_rule, split, cut, is_digit, is_lower,
  is_class,
}

pub data ParseError : Type 0 where
  bad_item bad_value bad_limit_text bad_period_text bad_burst_text zero_limit bad_key : ParseError
  bad_numbers : Invalid → ParseError

pub data Parsed (A : Type 0) : Type 0 where
  refused_text : ParseError → Parsed A
  parsed : A → Parsed A

is_digits : Text → Bool
is_digits s = not (is_empty s) && all is_digit s

is_period : Text → Bool
is_period s = not (is_empty s) && all (λ c. is_lower c || is_digit c) s

-- What follows the `/`: the period, and the text of the burst, empty where there is none.
match_tail : Text → Option (Text × Text) → Option (Text × Text)
unfolding is_digits is_period
match_tail s none = if is_period s then some (s, []) else none
match_tail s (some (d, b)) = if is_period d && is_digits b then some (d, b) else none

match_rest : Text → Option (Text × Text) → Option (Text × Text × Text)
match_rest l none = none
match_rest l (some (d, b)) = some (l, d, b)

match_head : Option (Text × Text) → Option (Text × Text × Text)
unfolding is_digits match_rest match_tail cut
match_head none = none
match_head (some (l, s)) = if is_digits l then match_rest l (match_tail s (cut 58 s)) else none

-- ruleRe: the three groups.
unfoldable pub match_rule : Text → Option (Text × Text × Text)
unfolding match_head cut
match_rule s = match_head (cut 47 s)

module _ (atoi : Text → Option ℤ) (parse_duration : Text → Option ℤ) where
  unfoldable pub checked_policy : Policy → Bool → Option Invalid → Parsed Policy
  checked_policy p true o = refused_text zero_limit
  checked_policy p false none = parsed p
  checked_policy p false (some e) = refused_text (bad_numbers e)

  unfoldable pub whole_policy : Policy → Parsed Policy
  unfolding checked_policy validate off
  whole_policy p = checked_policy p (off p) (validate p)

  unfoldable pub with_burst : ℤ → ℤ → Option ℤ → Parsed Policy
  unfolding whole_policy
  with_burst l d none = refused_text bad_burst_text
  with_burst l d (some b) = whole_policy (record { limit = l; period = d; allowance = b })

  unfoldable pub with_period : ℤ → Text → Option ℤ → Parsed Policy
  unfolding with_burst
  with_period l b none = refused_text bad_period_text
  with_period l b (some d) = with_burst l d (if is_empty b then some (pos 0) else atoi b)

  unfoldable pub with_limit : Text → Text → Option ℤ → Parsed Policy
  unfolding with_period
  with_limit d b none = refused_text bad_limit_text
  with_limit d b (some l) = with_period l b (parse_duration d)

  unfoldable pub of_match : Option (Text × Text × Text) → Parsed Policy
  unfolding with_limit
  of_match none = refused_text bad_value
  of_match (some (l, d, b)) = with_limit d b (atoi l)

  unfoldable pub parse_policy : Text → Parsed Policy
  unfolding of_match match_rule
  parse_policy value =
      if text_eq value (codes "off") then parsed no_policy else of_match (match_rule value)

  unfoldable pub set_key : Rules → Text → Text → ClassPolicy → Policy → Parsed Rules
  unfolding put_rule
  set_key out class key cp p =
      if text_eq key (codes "ip")
      then parsed (put_rule out class (record cp { ip = p }))
      else if text_eq key (codes "user")
      then parsed (put_rule out class (record cp { user = p }))
      else if text_eq key (codes "device")
      then parsed (put_rule out class (record cp { device = p }))
      else refused_text bad_key

  unfoldable pub with_policy : Rules → Text → Text → Parsed Policy → Parsed Rules
  unfolding set_key lookup_rule
  with_policy out class key (refused_text e) = refused_text e
  with_policy out class key (parsed p) =
      set_key out class key (class_or_zero (lookup_rule out class)) p

  unfoldable pub with_class : Rules → Text → Option (Text × Text) → Parsed Rules
  unfolding with_policy is_class parse_policy
  with_class out value none = refused_text bad_item
  with_class out value (some (class, key)) =
      if is_class class
      then with_policy out class key (parse_policy value)
      else refused_text bad_item

  unfoldable pub with_item : Rules → Option (Text × Text) → Parsed Rules
  unfolding with_class cut
  with_item out none = refused_text bad_item
  with_item out (some (name, value)) = with_class out value (cut 46 name)

  unfoldable pub parse_items : List Text → Parsed Rules → Parsed Rules
  unfolding with_item cut trim
  parse_items items (refused_text e) = refused_text e
  parse_items [] (parsed out) = parsed out
  parse_items (item ∷ items) (parsed out) =
      let s = trim item in
      parse_items items (if is_empty s then parsed out else with_item out (cut 61 s))

  unfoldable pub parse_rules : Text → Rules → Parsed Rules
  unfolding parse_items split
  parse_rules s base = parse_items (split 44 s) (parsed base)
