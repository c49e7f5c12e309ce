-- ===== src/Ratelimit/Cleanup.antt =====
-- CleanupWorker.Work ends, with the rows left that have not expired, and no decision of the limiter changes.
use wf_all.Prelude.{
  ℕ, Bool, not, ◌/◌, ◌≤◌, ◌≡◌, refl, [], ◌∷◌, none, Text, ltb, arith, text_eq_iff, false, sym, ◌∙◌,
}
use wf_all.Prelude.Int.{ℤ}
use wf_all.Ratelimit.{Policy, validate, off}
use wf_all.Ratelimit.Store.{Env, allow, Table, delete_expired, get_tat, next_tat}
use wf_all.Ratelimit.Limits.{is_some, Exact, Narrow, passes, allow-passes, validate-Applies}

-- The rows that a clean-up at `now` lets stay.
abbrev pub stays : ℕ → Text × ℕ → Bool
stays now row = not (ltb row.1 now)

-- No key has two rows: key is the primary key.
unfoldable pub IsKeyed : Table → Type 0
IsKeyed [] = Unit
IsKeyed ((k, tat) ∷ tab) = (get_tat tab k ≡ none) × IsKeyed tab

get_tat-delete_absent :
    (now batch : ℕ) (tab : Table) (key : Text)
    → get_tat tab key ≡ none
    → get_tat (delete_expired now batch tab).0 key ≡ none
unfolding get_tat delete_expired
get_tat-delete_absent now batch [] key h = refl
get_tat-delete_absent now batch ((k, tat) ∷ tab) key h =
    ground (arith, get_tat-delete_absent now batch tab key)

passes-delete_expired :
    (now batch later t w : ℕ) (tab : Table) (key : Text)
    → IsKeyed tab
    → now ≤ later
    → t ≤ w
    → is_some (next_tat (get_tat (delete_expired now batch tab).0 key) later t w)
      ≡ is_some (next_tat (get_tat tab key) later t w)
unfolding get_tat delete_expired next_tat IsKeyed
passes-delete_expired now batch later t w [] key d l h = refl
passes-delete_expired now batch later t w ((k, tat) ∷ tab) key d l h = ground (
  arith,
  passes-delete_expired now batch later t w tab key d.1 l h,
  get_tat-delete_absent now batch tab key,
  text_eq_iff k key,
  d.0,
)

-- Deleting the expired rows changes no decision of Allow, then or later: for an accepted policy that
-- is on, with a window of at most thirty-five years, on a table with one row for each key, while the
-- database answers.
pub delete_expired-allow :
    (micros : ℤ → ℕ)
    → Exact micros
    → (env : Env) → ((i : ℕ) → env.fails i ≡ false)
    → (now batch : ℕ) → now ≤ env.now / 1000
    → (tab : Table) → IsKeyed tab
    → (key : Text) → (p : Policy) → validate p ≡ none
    → off p ≡ false
    → Narrow p
    → passes (allow micros env (delete_expired now batch tab).0 key p).1
      ≡ passes (allow micros env tab key p).1
delete_expired-allow micros ex env ok now batch l tab d key p v o n =
    let a = validate-Applies micros ex p v o n in
    allow-passes micros env (delete_expired now batch tab).0 key p ok a
    ∙ passes-delete_expired now batch (env.now / 1000) a.t a.w tab key d l a.t_le
    ∙ sym (allow-passes micros env tab key p ok a)
