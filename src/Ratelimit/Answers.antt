-- ===== src/Ratelimit/Answers.antt =====
-- The middleware over the PG limiter: with policies that Validate accepts and a database that
-- answers, it never lets a request pass for want of an answer.
use wf_all.Prelude.{
  ℕ, ◌/◌, ◌≡◌, ◌⊎◌, refl, inl, inr, true, false, not, Option, none, some, List, [], ◌∷◌, ◌++◌, All,
  Text, arith, is_empty, ◌==◌, if◌then◌else◌, Bool-cases,
}
use wf_all.Prelude.Int.{ℤ, pos, negsuc, ltb_ℤ}
use wf_all.Auth.{Subject, subject_from}
use wf_all.Ratelimit.{Policy, validate, off, check, interval, window}
use wf_all.Ratelimit.Window.{validate-Fits}
use wf_all.Ratelimit.Store.{
  Table, Env, Outcome, done, Result, allow, after_take, refusal, retry, next_tat, get_tat,
}
use wf_all.Ratelimit.Keys.{session_device_key}
use wf_all.Ratelimit.Rules.{ClassPolicy, Rules, lookup_rule, class_or_zero, default_class}
use wf_all.Ratelimit.Accepted.{IsValid, AreValid, lookup_rule-IsValid}
use wf_all.Ratelimit.Middleware.{
  Request, Entry, no_such_class, store_failed, Response, served, too_many, Check, ceil_seconds,
  ip_checks, device_checks, subject_checks, label_key, checks, after_allow, run_checks, with_rule,
  with_class, with_route, middleware,
}

-- A request is let through, or told to wait.
abbrev Waits : Result → Type 0
Waits r = (r.allowed ≡ true) ⊎ (ltb_ℤ (pos 0) r.retry_after ≡ true)

abbrev Answered : Outcome Result → Type 0
Answered o = (r : Result) × (o ≡ done r) × Waits r

retry-positive : (now tat : ℕ) (t w : ℤ) → ltb_ℤ (pos 0) (retry now tat t w) ≡ true
unfolding retry
retry-positive now tat t w = ground arith

refusal-Waits :
    (now : ℕ) (p : Policy) (o : Option ℕ)
    → ltb_ℤ (pos 0) (interval p) ≡ true
    → Waits (refusal now p o)
unfolding refusal
refusal-Waits now p none h = inr h
refusal-Waits now p (some tat) h = inr (retry-positive now tat (interval p) (window p))

after_take-Answered :
    (micros : ℤ → ℕ) (env : Env) (tab : Table) (key : Text) (p : Policy) (o : Option ℕ)
    → env.fails 1 ≡ false
    → ltb_ℤ (pos 0) (interval p) ≡ true
    → Answered (after_take micros env tab key p o).1
unfolding after_take
after_take-Answered micros env tab key p (some tat) f h =
    (record { allowed = true; retry_after = pos 0 }, refl, inl refl)
after_take-Answered micros env tab key p none f h = rw f (
  refusal env.now p (get_tat (env.meanwhile tab) key),
  refl,
  refusal-Waits env.now p (get_tat (env.meanwhile tab) key) h,
)

allow-Answered :
    (micros : ℤ → ℕ) (env : Env) (tab : Table) (key : Text) (p : Policy)
    → ((i : ℕ) → env.fails i ≡ false)
    → validate p ≡ none
    → Answered (allow micros env tab key p).1
unfolding allow check
allow-Answered micros env tab key p ok v = elim (Bool-cases (off p)) [
  | inl o ↦ rw (v, o) (record { allowed = true; retry_after = pos 0 }, refl, inl refl)
  | inr o ↦
      let f = validate-Fits p v o in
      rw (v, o, ok 0)
        (after_take-Answered micros env tab key p
          (next_tat (get_tat tab key) (env.now / 1000) (micros (interval p)) (micros (window p)))
          (ok 1) (rw f.interval_eq (ground (arith, f.t_positive))))
]

abbrev IsClassEntry : Entry → Type 0
IsClassEntry (no_such_class class) = Unit
IsClassEntry (store_failed f) = ⊥

abbrev IsPrompt : Response → Type 0
IsPrompt served = Unit
IsPrompt (too_many wait) = ltb_ℤ (pos 0) wait ≡ true

-- Nothing of the store was logged, and a refusal names a wait of at least a second.
unfoldable pub Fine : {S : Type 0} → S × List Entry × Response → Type 0
Fine (s, log, res) = All IsClassEntry log × IsPrompt res

IsChecked : Check → Type 0
IsChecked (key, p) = validate p ≡ none

ceil_seconds-positive : (d : ℤ) → ltb_ℤ (pos 0) d ≡ true → ltb_ℤ (pos 0) (ceil_seconds d) ≡ true
unfolding ceil_seconds
ceil_seconds-positive (pos n) h = ground arith
ceil_seconds-positive (negsuc n) h = absurd (ground arith)

All-append : (xs ys : List Check) → All IsChecked xs → All IsChecked ys → All IsChecked (xs ++ ys)
All-append [] ys h g = g
All-append (x ∷ xs) ys h g = (h.0, All-append xs ys h.1 g)

device_checks-IsChecked :
    (cp : ClassPolicy) (key : Text) → IsValid cp → All IsChecked (device_checks cp key)
unfolding device_checks IsChecked
device_checks-IsChecked cp [] h = tt
device_checks-IsChecked cp (c ∷ key) h = (h.2, tt)

module _ (uuid_text : ℕ → Text) where
  subject_checks-IsChecked :
      (class : Text) (cp : ClassPolicy) (label : Text) (s : Option Subject)
      → IsValid cp
      → All IsChecked (subject_checks uuid_text class cp label s)
  unfolding subject_checks IsChecked
  subject_checks-IsChecked class cp label none h = device_checks-IsChecked cp label h
  subject_checks-IsChecked class cp label (some s) h = (
    h.1,
    device_checks-IsChecked cp
        (if not (s.device == 0) then session_device_key class (uuid_text s.device) else label) h,
  )

  ip_checks-IsChecked :
      (class : Text) (cp : ClassPolicy) (ip : Option Text)
      → IsValid cp
      → All IsChecked (ip_checks class cp ip)
  unfolding ip_checks IsChecked
  ip_checks-IsChecked class cp none h = tt
  ip_checks-IsChecked class cp (some ip) h = (h.0, tt)

  checks-IsChecked :
      (class : Text) (cp : ClassPolicy) (req : Request)
      → IsValid cp
      → All IsChecked (checks uuid_text class cp req)
  unfolding checks
  checks-IsChecked class cp req h =
      All-append (ip_checks class cp req.peer_ip) _ (ip_checks-IsChecked class cp req.peer_ip h) (
        subject_checks-IsChecked class cp (label_key class req.peer_device)
          (subject_from req.context) h)

  module _ {S : Type 0} (call : S → Text → Policy → S × Outcome Result) where
    after_allow-Fine :
        (s : S) (rest : S × List Entry × Response) (o : Outcome Result)
        → Answered o
        → Fine rest
        → Fine (after_allow uuid_text call s rest o)
    unfolding after_allow Fine
    after_allow-Fine s rest o (r, e, inl pass) f = rw (e, pass) f
    after_allow-Fine s rest o (r, e, inr wait) f = rw e (elim (Bool-cases r.allowed) [
      | inl pass ↦ rw pass f
      | inr stop ↦ rw stop (tt, ceil_seconds-positive r.retry_after wait)
    ])

    -- `call` answers for every policy that Validate accepts.
    pub Answers : Type 0
    Answers = (s : S) (key : Text) (p : Policy) → validate p ≡ none → Answered (call s key p).1

    run_checks-Fine :
        Answers
        → (cs : List Check) → All IsChecked cs
        → (s : S) → Fine (run_checks uuid_text call s cs)
    unfolding run_checks Answers IsChecked Fine
    run_checks-Fine a [] h s = (tt, tt)
    run_checks-Fine a ((key, p) ∷ cs) h s =
        let s' = (call s key p).0 in
        after_allow-Fine s' (run_checks uuid_text call s' cs) (call s key p).1 (a s key p h.0)
          (run_checks-Fine a cs h.1 s')

    with_rule-Fine :
        Answers
        → (s : S) (class : Text) (o : Option ClassPolicy) (other : ClassPolicy) (req : Request)
        → IsValid (class_or_zero o)
        → IsValid other
        → Fine (with_rule uuid_text call s class o other req)
    unfolding with_rule Fine
    with_rule-Fine a s class none other req h g =
        let f =
          run_checks-Fine a (checks uuid_text class other req) (checks-IsChecked class other req g)
            s in
        ((tt, f.0), f.1)
    with_rule-Fine a s class (some cp) other req h g =
        run_checks-Fine a (checks uuid_text class cp req) (checks-IsChecked class cp req h) s

    with_route-Fine :
        Answers
        → (r : Rules) (s : S) (route : Option Text) (req : Request) → AreValid r
        → Fine (with_route uuid_text call r s route req)
    unfolding with_route with_class Fine
    with_route-Fine a r s none req h = (tt, tt)
    with_route-Fine a r s (some class) req h =
        let name = if is_empty class then default_class else class in
        with_rule-Fine a s name (lookup_rule r name) (class_or_zero (lookup_rule r default_class))
          req (lookup_rule-IsValid r name h) (lookup_rule-IsValid r default_class h)

-- The limit of a request never gives up: with rules whose policies Validate accepts, and a database
-- that answers, the middleware over the PG limiter logs no failure of the store, on which it would
-- let the request pass unchecked, and a refusal tells the client to wait for at least a second.
pub middleware-Fine :
    (uuid_text : ℕ → Text) (micros : ℤ → ℕ) (env : Env)
    → ((i : ℕ) → env.fails i ≡ false)
    → (r : Rules) → AreValid r
    → (tab : Table) (req : Request) → Fine (middleware uuid_text (allow micros env) r tab req)
unfolding middleware Answers
middleware-Fine uuid_text micros env ok r h tab req =
    with_route-Fine uuid_text (allow micros env)
      (λ s key p v. allow-Answered micros env s key p ok v) r tab req.route req h
