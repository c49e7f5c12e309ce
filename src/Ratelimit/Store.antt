-- ===== src/Ratelimit/Store.antt =====
-- backend/internal/platform/ratelimit/queries/ratelimit.sql and the PG type of limiter.go: the
-- table of keys with their tat, and Allow, Add and Over on it. The clock counts nanoseconds and
-- the database microseconds; a timestamp is cut to microseconds when it is sent.
use wf_all.Prelude.{
  ℕ, ◌+◌, ◌*◌, ◌/◌, max, Bool, true, false, ◌&&◌, List, [], ◌∷◌, Option, none, some, Text, text_eq,
  leb, ltb, if◌then◌else◌,
}
use wf_all.Prelude.Int.{ℤ, pos, neg, ltb_ℤ, sub_ℕ, add_ℤ, sub_ℤ, wrap_64}
use wf_all.Prelude.Cleaning.{drain_at}
use wf_all.Ratelimit.{
  Policy, Invalid, Checked, refused, not_limited, limited, check, interval, window, max_int64,
}

-- The rows of rate_limits; the key is the primary key.
abbrev pub Table : Type 0
Table = List (Text × ℕ)

unfoldable pub get_tat : Table → Text → Option ℕ
get_tat [] key = none
get_tat ((k, tat) ∷ tab) key = if text_eq k key then some tat else get_tat tab key

unfoldable pub put_tat : Table → Text → ℕ → Table
put_tat [] key tat = (key, tat) ∷ []
put_tat ((k, old) ∷ tab) key tat =
    if text_eq k key then (k, tat) ∷ tab else (k, old) ∷ put_tat tab key tat

-- The tat that Take writes, where it writes one: the row is new, or the request fits the window.
unfoldable pub next_tat : Option ℕ → ℕ → ℕ → ℕ → Option ℕ
next_tat none now t w = some (now + t)
next_tat (some tat) now t w =
    if leb (max tat now + t) (now + w) then some (max tat now + t) else none

-- The tat that Add writes.
unfoldable pub added_tat : Option ℕ → ℕ → ℕ → ℕ
added_tat none now t = now + t
added_tat (some tat) now t = max tat now + t

-- DELETE … WHERE tat < now, at most `batch` rows. Which ones, where more have expired, the
-- database chooses; here it is the last.
unfoldable pub delete_expired : ℕ → ℕ → Table → Table × ℕ
delete_expired now batch [] = ([], 0)
delete_expired now batch ((k, tat) ∷ tab) =
    let (rest, n) = delete_expired now batch tab in
    if ltb tat now && ltb n batch then (rest, n + 1) else ((k, tat) ∷ rest, n)

-- CleanupWorker.Work, on fuel: batches while they are full, each at its own reading of the clock; it
-- returns no number. Errors of the database, which end it, are left out.
unfoldable pub cleanup_batch : ℕ
cleanup_batch = 1000

unfoldable pub table_of : Option (Table × ℕ) → Option Table
table_of none = none
table_of (some (tab, n)) = some tab

unfoldable pub work : (ℕ → ℕ) → ℕ → Table → Option Table
unfolding drain_at delete_expired cleanup_batch table_of
work clock fuel tab =
    table_of (drain_at (λ now. delete_expired now cleanup_batch) cleanup_batch clock fuel tab)

pub data Fault : Type 0 where
  invalid : Invalid → Fault
  storage : Fault

pub data Outcome (A : Type 0) : Type 0 where
  failed : Fault → Outcome A
  done : A → Outcome A

pub record Result : Type 0 where
  pub allowed : Bool
  pub retry_after : ℤ

-- What a call meets: the clock, which of its statements fail, and what other transactions do
-- between the two statements of Allow.
pub record Env : Type 0 where
  pub now : ℕ
  pub fails : ℕ → Bool
  pub meanwhile : Table → Table

-- time.Time.Sub, which stops at the ends of int64.
unfoldable pub time_sub : ℕ → ℕ → ℤ
time_sub a b =
    let d = sub_ℕ a b in
    if ltb_ℤ (pos max_int64) d
    then pos max_int64
    else if ltb_ℤ d (neg (max_int64 + 1))
    then neg (max_int64 + 1)
    else d

-- When the next request passes, after a refusal at `now` that found `tat`.
unfoldable pub retry : ℕ → ℕ → ℤ → ℤ → ℤ
unfolding time_sub
retry now tat t w =
    let base = if ltb (tat * 1000) now then now else tat * 1000 in
    let r = wrap_64 (sub_ℤ (add_ℤ (time_sub base now) t) w) in
    if ltb_ℤ r (pos 1000000) then pos 1000000 else r

unfoldable pub refusal : ℕ → Policy → Option ℕ → Result
unfolding retry interval window
refusal now p none = record { allowed = false; retry_after = interval p }
refusal now p (some tat) = record {
  allowed = false;
  retry_after = retry now tat (interval p) (window p);
}

-- `micros` is what the database makes of an interval that is sent as float seconds.
module _ (micros : ℤ → ℕ) where
  unfoldable pub after_take : Env → Table → Text → Policy → Option ℕ → Table × Outcome Result
  unfolding put_tat get_tat refusal
  after_take env tab key p (some tat) =
      (put_tat tab key tat, done (record { allowed = true; retry_after = pos 0 }))
  after_take env tab key p none =
      let then_tab = env.meanwhile tab in
      if env.fails 1
      then (then_tab, failed storage)
      else (then_tab, done (refusal env.now p (get_tat then_tab key)))

  unfoldable pub allow_checked : Env → Table → Text → Policy → Checked → Table × Outcome Result
  unfolding after_take next_tat get_tat interval window
  allow_checked env tab key p (refused e) = (tab, failed (invalid e))
  allow_checked env tab key p not_limited =
      (tab, done (record { allowed = true; retry_after = pos 0 }))
  allow_checked env tab key p limited =
      if env.fails 0
      then (tab, failed storage)
      else after_take env tab key p
          (next_tat (get_tat tab key) (env.now / 1000) (micros (interval p)) (micros (window p)))

  unfoldable pub allow : Env → Table → Text → Policy → Table × Outcome Result
  unfolding allow_checked check
  allow env tab key p = allow_checked env tab key p (check p)

  unfoldable pub add_checked : Env → Table → Text → Policy → Checked → Table × Outcome Unit
  unfolding put_tat added_tat get_tat interval
  add_checked env tab key p (refused e) = (tab, failed (invalid e))
  add_checked env tab key p not_limited = (tab, done tt)
  add_checked env tab key p limited = if env.fails 0 then (tab, failed storage) else (
    put_tat tab key (added_tat (get_tat tab key) (env.now / 1000) (micros (interval p))),
    done tt,
  )

  unfoldable pub add : Env → Table → Text → Policy → Table × Outcome Unit
  unfolding add_checked check
  add env tab key p = add_checked env tab key p (check p)

unfoldable pub exceeds : ℕ → Policy → Option ℕ → Bool
unfolding time_sub window interval
exceeds now p none = false
exceeds now p (some tat) = ltb_ℤ (sub_ℤ (window p) (interval p)) (time_sub (tat * 1000) now)

over_checked : Env → Table → Text → Policy → Checked → Outcome Bool
unfolding exceeds get_tat
over_checked env tab key p (refused e) = failed (invalid e)
over_checked env tab key p not_limited = done false
over_checked env tab key p limited =
    if env.fails 0 then failed storage else done (exceeds env.now p (get_tat tab key))

unfoldable pub over : Env → Table → Text → Policy → Outcome Bool
unfolding over_checked check
over env tab key p = over_checked env tab key p (check p)
