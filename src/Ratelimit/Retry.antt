-- ===== src/Ratelimit/Retry.antt =====
-- The wait that a refusal of Allow announces.
use wf_all.Prelude.{
  ℕ, ◌+◌, ◌*◌, ◌/◌, ◌-◌, ◌≤◌, ◌<◌, ◌≡◌, refl, sym, ap, ◌∙◌, false, Option, none, some, arith, Text,
  max, leb, subst,
}
use wf_all.Prelude.Int.{ℤ, pos}
use wf_all.Ratelimit.{Policy, off, validate, max_int64}
use wf_all.Ratelimit.Store.{
  Table, Env, done, allow, get_tat, next_tat, retry, refusal, after_take, time_sub,
}
use wf_all.Ratelimit.Limits.{
  Applies, validate-Applies, Exact, Narrow, passes, is_some, allow-passes,
}

-- The wait without its lower limit of a millisecond.
due : ℕ → ℕ → ℕ → ℕ → ℕ
due now tat t w = tat * 1000 + t * 1000 - now - w * 1000

retry-due :
    (now tat t w : ℕ)
    → is_some (next_tat (some tat) (now / 1000) t w) ≡ false
    → tat * 1000 ≤ now + max_int64
    → 0 < t
    → t ≤ w
    → w * 1000 ≤ max_int64
    → retry now tat (pos (t * 1000)) (pos (w * 1000)) ≡ pos (max 1000000 (due now tat t w))
unfolding next_tat retry due time_sub
retry-due now tat t w h b ht hw hm = ground arith

next_tat-due :
    (now tat t w later : ℕ)
    → is_some (next_tat (some tat) (now / 1000) t w) ≡ false
    → t ≤ w
    → now ≤ later
    → is_some (next_tat (some tat) (later / 1000) t w) ≡ leb (now + due now tat t w) later
unfolding next_tat due
next_tat-due now tat t w later h ht l = ground arith

is_some-none : (o : Option ℕ) → is_some o ≡ false → o ≡ none
is_some-none none h = refl
is_some-none (some x) h = absurd (ground arith)

after_take-refused :
    (micros : ℤ → ℕ) (env : Env) (tab : Table) (key : Text) (p : Policy) (o : Option ℕ)
    → o ≡ none
    → env.fails 1 ≡ false
    → env.meanwhile tab ≡ tab
    → after_take micros env tab key p o ≡ (tab, done (refusal env.now p (get_tat tab key)))
unfolding after_take
after_take-refused micros env tab key p o e h m = rw (e, h, m) refl

allow-row :
    (micros : ℤ → ℕ) (env : Env) (tab : Table) (key : Text) (tat : ℕ) (p : Policy)
    → ((i : ℕ) → env.fails i ≡ false)
    → (a : Applies micros p) → get_tat tab key ≡ some tat
    → passes (allow micros env tab key p).1 ≡ is_some (next_tat (some tat) (env.now / 1000) a.t a.w)
allow-row micros env tab key tat p ok a e =
    subst
      (λ g. passes (allow micros env tab key p).1 ≡ is_some (next_tat g (env.now / 1000) a.t a.w)) e
      (allow-passes micros env tab key p ok a)

refusal-due :
    (micros : ℤ → ℕ) (now tat : ℕ) (p : Policy) (a : Applies micros p)
    → is_some (next_tat (some tat) (now / 1000) a.t a.w) ≡ false
    → tat * 1000 ≤ now + max_int64
    → refusal now p (some tat)
      ≡ record { allowed = false; retry_after = pos (max 1000000 (due now tat a.t a.w)) }
unfolding refusal
refusal-due micros now tat p a h b =
    rw (a.window_eq, a.interval_eq)
      (ap (λ r. record { allowed = false; retry_after = r })
        (retry-due now tat a.t a.w h b a.t_positive a.t_le a.bound))

allow-refused :
    (micros : ℤ → ℕ) (env : Env) (tab : Table) (key : Text) (tat : ℕ) (p : Policy)
    → ((i : ℕ) → env.fails i ≡ false)
    → env.meanwhile tab ≡ tab
    → (a : Applies micros p) → get_tat tab key ≡ some tat
    → is_some (next_tat (some tat) (env.now / 1000) a.t a.w) ≡ false
    → tat * 1000 ≤ env.now + max_int64
    → allow micros env tab key p ≡ (
      tab,
      done (record { allowed = false; retry_after = pos (max 1000000 (due env.now tat a.t a.w)) }),
    )
unfolding allow
allow-refused micros env tab key tat p ok still a e h b =
    rw (a.applied, ok 0, a.micros_t, a.micros_w, e)
      (after_take-refused micros env tab key p (next_tat (some tat) (env.now / 1000) a.t a.w)
          (is_some-none _ h) (ok 1) still
        ∙ ap (λ r. (tab, done r)) (rw e (refusal-due micros env.now tat p a h b)))

-- A refusal of Allow announces the wait that is needed, `d` nanoseconds, or a millisecond where that
-- is more: for an accepted policy that is on and whose window is at most thirty-five years, where
-- the row stays as it is and its tat is within int64 nanoseconds of the clock, a later call passes
-- exactly if its time is at least d after the refusal.
pub allow-retry :
    (micros : ℤ → ℕ)
    → Exact micros
    → (env later : Env) → ((i : ℕ) → env.fails i ≡ false)
    → ((i : ℕ) → later.fails i ≡ false)
    → env.now ≤ later.now
    → (tab : Table) → env.meanwhile tab ≡ tab
    → (key : Text) (tat : ℕ) → get_tat tab key ≡ some tat
    → tat * 1000 ≤ env.now + max_int64
    → (p : Policy) → validate p ≡ none
    → off p ≡ false
    → Narrow p
    → passes (allow micros env tab key p).1 ≡ false
    → (d : ℕ) × (allow micros env tab key p
        ≡ (tab, done (record { allowed = false; retry_after = pos (max 1000000 d) })))
      × (passes (allow micros later tab key p).1 ≡ leb (env.now + d) later.now)
allow-retry micros ex env later ok ok' l tab still key tat e b p v o n h =
    let a = validate-Applies micros ex p v o n in
    let refused = sym (allow-row micros env tab key tat p ok a e) ∙ h in
    (
      due env.now tat a.t a.w,
      allow-refused micros env tab key tat p ok still a e refused b,
      allow-row micros later tab key tat p ok' a e
          ∙ next_tat-due env.now tat a.t a.w later.now refused a.t_le l,
    )
