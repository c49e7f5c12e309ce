-- ===== src/Ratelimit/Accepted.antt =====
-- What ParseRules returns holds only policies that Validate accepts.
use wf_all.Prelude.{
  ◌≡◌, refl, Bool, true, false, Option, none, some, List, [], ◌∷◌, Text, codes, text_eq,
  if◌then◌else◌, arith, is_empty, Bool-cases, inl, inr, trim,
}
use wf_all.Prelude.Int.{ℤ, pos}
use wf_all.Ratelimit.{Policy, Invalid, validate, off}
use wf_all.Ratelimit.Rules.{
  ClassPolicy, Rules, lookup_rule, class_or_zero, put_rule, is_class, cut, split, no_class,
}
use wf_all.Ratelimit.Parse.{
  Parsed, parsed, refused_text, checked_policy, whole_policy, with_burst, with_period, with_limit,
  of_match, match_rule, parse_policy, set_key, with_policy, with_class, with_item, parse_items,
  parse_rules,
}

abbrev pub IsValid : ClassPolicy → Type 0
IsValid cp = (validate cp.ip ≡ none) × (validate cp.user ≡ none) × (validate cp.device ≡ none)

-- The policies of every class are ones that Validate accepts.
abbrev pub AreValid : Rules → Type 0
AreValid [] = Unit
AreValid ((class, cp) ∷ r) = IsValid cp × AreValid r

-- The same of a result: an error holds no rules.
abbrev pub YieldsValid : Parsed Rules → Type 0
YieldsValid (refused_text e) = Unit
YieldsValid (parsed r) = AreValid r

abbrev IsAccepted : Parsed Policy → Type 0
IsAccepted (refused_text e) = Unit
IsAccepted (parsed p) = validate p ≡ none

put_rule-AreValid :
    (r : Rules) (class : Text) (cp : ClassPolicy)
    → AreValid r
    → IsValid cp
    → AreValid (put_rule r class cp)
unfolding put_rule
put_rule-AreValid [] class cp h v = (v, tt)
put_rule-AreValid ((k, old) ∷ r) class cp h v = ground (arith, put_rule-AreValid r class cp h.1 v)

no_class-IsValid : IsValid no_class
unfolding validate
no_class-IsValid = (refl, refl, refl)

pub lookup_rule-IsValid :
    (r : Rules) (class : Text) → AreValid r → IsValid (class_or_zero (lookup_rule r class))
unfolding lookup_rule
lookup_rule-IsValid [] class h = no_class-IsValid
lookup_rule-IsValid ((k, cp) ∷ r) class h = elim (Bool-cases (text_eq k class)) [
  | inl e ↦ rw e h.0
  | inr e ↦ rw e (lookup_rule-IsValid r class h.1)
]

module _ (atoi : Text → Option ℤ) (parse_duration : Text → Option ℤ) where
  checked_policy-IsAccepted :
      (p : Policy) (b : Bool) (o : Option Invalid)
      → validate p ≡ o
      → IsAccepted (checked_policy atoi parse_duration p b o)
  unfolding checked_policy
  checked_policy-IsAccepted p true o e = tt
  checked_policy-IsAccepted p false none e = e
  checked_policy-IsAccepted p false (some i) e = tt

  whole_policy-IsAccepted : (p : Policy) → IsAccepted (whole_policy atoi parse_duration p)
  unfolding whole_policy
  whole_policy-IsAccepted p = checked_policy-IsAccepted p (off p) (validate p) refl

  with_burst-IsAccepted :
      (l d : ℤ) (o : Option ℤ) → IsAccepted (with_burst atoi parse_duration l d o)
  unfolding with_burst
  with_burst-IsAccepted l d none = tt
  with_burst-IsAccepted l d (some b) =
      whole_policy-IsAccepted (record { limit = l; period = d; allowance = b })

  with_period-IsAccepted :
      (l : ℤ) (b : Text) (o : Option ℤ) → IsAccepted (with_period atoi parse_duration l b o)
  unfolding with_period
  with_period-IsAccepted l b none = tt
  with_period-IsAccepted l b (some d) =
      with_burst-IsAccepted l d (if is_empty b then some (pos 0) else atoi b)

  with_limit-IsAccepted :
      (d b : Text) (o : Option ℤ) → IsAccepted (with_limit atoi parse_duration d b o)
  unfolding with_limit
  with_limit-IsAccepted d b none = tt
  with_limit-IsAccepted d b (some l) = with_period-IsAccepted l b (parse_duration d)

  of_match-IsAccepted :
      (o : Option (Text × Text × Text)) → IsAccepted (of_match atoi parse_duration o)
  unfolding of_match
  of_match-IsAccepted none = tt
  of_match-IsAccepted (some (l, d, b)) = with_limit-IsAccepted d b (atoi l)

  parse_policy-IsAccepted : (value : Text) → IsAccepted (parse_policy atoi parse_duration value)
  unfolding parse_policy
  parse_policy-IsAccepted value = elim (Bool-cases (text_eq value (codes "off"))) [
    | inl e ↦ rw e no_class-IsValid.0
    | inr e ↦ rw e (of_match-IsAccepted (match_rule value))
  ]

  set_key-YieldsValid :
      (out : Rules) (class key : Text) (cp : ClassPolicy) (p : Policy)
      → AreValid out
      → IsValid cp
      → validate p ≡ none
      → YieldsValid (set_key atoi parse_duration out class key cp p)
  unfolding set_key
  set_key-YieldsValid out class key cp p h c v = ground (
    arith,
    put_rule-AreValid out class (record cp { ip = p }) h (v, c.1, c.2),
    put_rule-AreValid out class (record cp { user = p }) h (c.0, v, c.2),
    put_rule-AreValid out class (record cp { device = p }) h (c.0, c.1, v),
  )

  with_policy-YieldsValid :
      (out : Rules) (class key : Text) (p : Parsed Policy)
      → AreValid out
      → IsAccepted p
      → YieldsValid (with_policy atoi parse_duration out class key p)
  unfolding with_policy
  with_policy-YieldsValid out class key (refused_text e) h v = tt
  with_policy-YieldsValid out class key (parsed p) h v =
      set_key-YieldsValid out class key (class_or_zero (lookup_rule out class)) p h
        (lookup_rule-IsValid out class h) v

  with_class-YieldsValid :
      (out : Rules) (value : Text) (o : Option (Text × Text))
      → AreValid out
      → YieldsValid (with_class atoi parse_duration out value o)
  unfolding with_class
  with_class-YieldsValid out value none h = tt
  with_class-YieldsValid out value (some (class, key)) h = elim (Bool-cases (is_class class)) [
    | inl e ↦ rw e (
        with_policy-YieldsValid out class key (parse_policy atoi parse_duration value) h
          (parse_policy-IsAccepted value))
    | inr e ↦ rw e tt
  ]

  with_item-YieldsValid :
      (out : Rules) (o : Option (Text × Text))
      → AreValid out
      → YieldsValid (with_item atoi parse_duration out o)
  unfolding with_item
  with_item-YieldsValid out none h = tt
  with_item-YieldsValid out (some (name, value)) h =
      with_class-YieldsValid out value (cut 46 name) h

  parse_items-YieldsValid :
      (items : List Text) (o : Parsed Rules)
      → YieldsValid o
      → YieldsValid (parse_items atoi parse_duration items o)
  unfolding parse_items
  parse_items-YieldsValid items (refused_text e) h = tt
  parse_items-YieldsValid [] (parsed out) h = h
  parse_items-YieldsValid (item ∷ items) (parsed out) h =
      parse_items-YieldsValid items
        (if is_empty (trim item)
          then parsed out
          else with_item atoi parse_duration out (cut 61 (trim item)))
        (elim (Bool-cases (is_empty (trim item))) [
          | inl e ↦ rw e h
          | inr e ↦ rw e (with_item-YieldsValid out (cut 61 (trim item)) h)
        ])

  -- The rules that ParseRules returns have only policies that Validate accepts, where those of the
  -- base have, whatever the text and however strconv and time read numbers and durations.
  pub parse_rules-YieldsValid :
      (s : Text) (base : Rules)
      → AreValid base
      → YieldsValid (parse_rules atoi parse_duration s base)
  unfolding parse_rules
  parse_rules-YieldsValid s base h = parse_items-YieldsValid (split 44 s) (parsed base) h
