-- ===== src/Risk/Signals.antt =====
-- What Suspicious tells.
use wf_all.Prelude.{
  ℕ, ◌≡◌, refl, ap, ◌∙◌, Bool, true, false, not, Option, none, some, List, [], ◌∷◌, Text, any, ◌||◌,
  arith,
}
use wf_all.Prelude.Int.{ℤ}
use wf_all.Ratelimit.{Policy, validate, off}
use wf_all.Ratelimit.Store.{Table, Env, done, allow, over}
use wf_all.Ratelimit.Limits.{Exact, Narrow, passes, over-allow}
use wf_all.Risk.{
  Policies, new_assessor, lookup_policy, known, policy, risk_key, assessed, after_over, any_over,
  with_known, suspicious,
}

lookup_policy-validate :
    (ps : Policies) (signal : Text) (p : Policy)
    → new_assessor ps ≡ none
    → lookup_policy ps signal ≡ some p
    → validate p ≡ none
unfolding new_assessor lookup_policy
lookup_policy-validate [] signal p n h = absurd (ground arith)
lookup_policy-validate ((s, q) ∷ ps) signal p n h =
    ground (arith, lookup_policy-validate ps signal p)

known-lookup : (o : Option Policy) (p : Policy) → known o ≡ some p → (o ≡ some p) × (off p ≡ false)
unfolding known
known-lookup none p h = absurd (ground arith)
known-lookup (some q) p h = ground arith

after_over-any : (b c : Bool) → after_over (done b) (assessed c) ≡ assessed (b || c)
unfolding after_over
after_over-any true c = refl
after_over-any false c = refl

any_over-any :
    (f : Text → Bool) (env : Env) (tab : Table) (signal : Text) (p : Policy) (keys : List Text)
    → ((k : Text) → over env tab (risk_key signal k) p ≡ done (f k))
    → any_over env tab signal p keys ≡ assessed (any f keys)
unfolding any_over
any_over-any f env tab signal p [] h = refl
any_over-any f env tab signal p (k ∷ keys) h =
    ap (λ o. after_over o (any_over env tab signal p keys)) (h k)
    ∙ ap (λ r. after_over (done (f k)) r) (any_over-any f env tab signal p keys h)
    ∙ after_over-any (f k) (any f keys)

-- A signal is suspicious exactly if for one of the keys the next request under the policy of the
-- signal would be refused: for policies that NewAssessor accepts, of which the signal's has a window
-- of at most thirty-five years, while the database answers.
pub suspicious-allow :
    (micros : ℤ → ℕ)
    → Exact micros
    → (env : Env) → ((i : ℕ) → env.fails i ≡ false)
    → (tab : Table) (ps : Policies) (signal : Text) (keys : List Text) (p : Policy)
    → new_assessor ps ≡ none
    → policy ps signal ≡ some p
    → Narrow p
    → suspicious env tab ps signal keys
      ≡ assessed (any (λ k. not (passes (allow micros env tab (risk_key signal k) p).1)) keys)
unfolding suspicious policy with_known
suspicious-allow micros ex env ok tab ps signal keys p n h w =
    let (found, on) = known-lookup (lookup_policy ps signal) p h in
    let v = lookup_policy-validate ps signal p n found in
    rw h (
      any_over-any (λ k. not (passes (allow micros env tab (risk_key signal k) p).1)) env tab signal
        p keys (λ k. over-allow micros ex env ok tab (risk_key signal k) p v on w))
