-- ===== src/Ratelimit/Limits.antt =====
-- What Allow and Over tell a client, for a policy that Validate accepts: they agree, and the wait
-- that a refusal announces is exact.
use wf_all.Prelude.{
  ℕ, zero, suc, ◌*◌, ◌/◌, ◌≤◌, ◌<◌, ◌≡◌, refl, sym, ap, ◌∙◌, Bool, true, false, not, Option, none,
  some, arith, Text,
}
use wf_all.Prelude.Int.{ℤ, pos, pos_part}
use wf_all.Ratelimit.{Policy, off, interval, window, validate, max_int64, check, limited}
use wf_all.Ratelimit.Window.{validate-Fits}
use wf_all.Ratelimit.Store.{
  Table, Env, Outcome, failed, done, Result, allow, over, get_tat, next_tat, after_take, exceeds,
  refusal, time_sub,
}

-- An interval of whole microseconds, up to thirty-five years, survives the float of Seconds.
unfoldable pub Exact : (ℤ → ℕ) → Type 0
Exact micros = (k : ℕ) → k ≤ 1125899906842624 → micros (pos (k * 1000)) ≡ k

-- A window of at most that length.
unfoldable pub Narrow : Policy → Type 0
Narrow p = (w : ℕ) × (window p ≡ pos (w * 1000)) × (w ≤ 1125899906842624)

abbrev pub passes : Outcome Result → Bool
passes (failed e) = false
passes (done r) = r.allowed

abbrev pub is_some {ℓ} : {A : Type ℓ} → Option A → Bool
is_some none = false
is_some (some a) = true

-- What the limiter reads of an accepted policy: `t` and `w` are T and the window in microseconds.
pub record Applies (micros : ℤ → ℕ) (p : Policy) : Type 0 where
  pub t : ℕ
  pub w : ℕ
  pub interval_eq : interval p ≡ pos (t * 1000)
  pub window_eq : window p ≡ pos (w * 1000)
  pub micros_t : micros (interval p) ≡ t
  pub micros_w : micros (window p) ≡ w
  pub t_positive : 0 < t
  pub t_le : t ≤ w
  pub bound : w * 1000 ≤ max_int64
  pub applied : check p ≡ limited

le_times : (t b : ℕ) → 0 < b → t ≤ t * b
le_times t zero h = absurd (omega arith)
le_times t (suc b) h = omega arith

pub validate-Applies :
    (micros : ℤ → ℕ)
    → Exact micros
    → (p : Policy) → validate p ≡ none
    → off p ≡ false
    → Narrow p
    → Applies micros p
unfolding Exact Narrow check
validate-Applies micros ex p v o (w, we, wb) =
    let f = validate-Fits p v o in
    let same : w * 1000 ≡ f.t * f.b * 1000 = ap pos_part (sym we ∙ f.window_eq) in
    record {
      t = f.t;
      w = w;
      interval_eq = f.interval_eq;
      window_eq = we;
      micros_t =
          ap micros f.interval_eq ∙ ex f.t (omega (arith, same, le_times f.t f.b f.b_positive));
      micros_w = ap micros we ∙ ex w wb;
      t_positive = f.t_positive;
      t_le = omega (arith, same, le_times f.t f.b f.b_positive);
      bound = omega (arith, same, f.bound);
      applied = rw (v, o) refl;
    }

-- Over on a row, in the microseconds of the database.
exceeds_us :
    {micros : ℤ → ℕ} (p : Policy)
    → (a : Applies micros p) → (now : ℕ) → (o : Option ℕ)
    → exceeds now p o ≡ not (is_some (next_tat o (now / 1000) a.t a.w))
unfolding exceeds next_tat time_sub
exceeds_us p a now none = refl
exceeds_us p a now (some tat) =
    rw (a.window_eq, a.interval_eq) (ground (arith, a.t_positive, a.t_le, a.bound))

pub refusal-allowed : (now : ℕ) (p : Policy) (o : Option ℕ) → (refusal now p o).allowed ≡ false
unfolding refusal
refusal-allowed now p none = refl
refusal-allowed now p (some tat) = refl

passes-after_take :
    (micros : ℤ → ℕ) (env : Env) (tab : Table) (key : Text) (p : Policy) (o : Option ℕ)
    → env.fails 1 ≡ false
    → passes (after_take micros env tab key p o).1 ≡ is_some o
unfolding after_take
passes-after_take micros env tab key p none h =
    rw h (refusal-allowed env.now p (get_tat (env.meanwhile tab) key))
passes-after_take micros env tab key p (some tat) h = refl

pub allow-passes :
    (micros : ℤ → ℕ) (env : Env) (tab : Table) (key : Text) (p : Policy)
    → ((i : ℕ) → env.fails i ≡ false)
    → (a : Applies micros p)
    → passes (allow micros env tab key p).1
      ≡ is_some (next_tat (get_tat tab key) (env.now / 1000) a.t a.w)
unfolding allow
allow-passes micros env tab key p ok a =
    rw (a.applied, ok 0, a.micros_t, a.micros_w)
      (passes-after_take micros env tab key p (next_tat (get_tat tab key) (env.now / 1000) a.t a.w)
        (ok 1))

-- Over answers, without a request, whether Allow would refuse the next one: for an accepted policy
-- that is not off and whose window is at most thirty-five years, on every table, at every time to
-- the nanosecond, while the database answers.
pub over-allow :
    (micros : ℤ → ℕ)
    → Exact micros
    → (env : Env) → ((i : ℕ) → env.fails i ≡ false)
    → (tab : Table) → (key : Text) → (p : Policy) → validate p ≡ none
    → off p ≡ false
    → Narrow p
    → over env tab key p ≡ done (not (passes (allow micros env tab key p).1))
unfolding over
over-allow micros ex env ok tab key p v o n =
    let a = validate-Applies micros ex p v o n in
    rw (a.applied, ok 0)
      (ap done (
        exceeds_us p a env.now (get_tat tab key)
        ∙ ap not (sym (allow-passes micros env tab key p ok a))))
