-- ===== src/Access/Trials.antt =====
-- How many failures the moves of Tally leave room for: an invariant of the count and the lock.
use wf_all.Prelude.{
  ℕ, ◌+◌, ◌-◌, ◌*◌, ◌≤◌, ◌≡◌, ◌⊎◌, inl, inr, refl, false, Option, none, some, ltb, max,
  if◌then◌else◌, arith,
}
use wf_all.Access.{before, lock_duration, max_factor_failures}
use wf_all.Access.Tally.{Tally, Move, idle, failed, passes, fail_tally, pass_tally}

-- The end of a lock, no earlier than `from`.
abbrev pub lock_end : ℕ → Option ℕ → ℕ
lock_end from none = from
lock_end from (some t) = max t from

-- How far the failures may have come, in the time that they cost.
abbrev pub room : ℕ → Tally → ℕ
room from t =
    if ltb t.failures max_factor_failures
    then from + t.failures * lock_duration
    else lock_end from t.locked_until + 4 * lock_duration

-- `start` failures were there at `from`.
pub record IsWithin (from start now : ℕ) (t : Tally) : Type 0 where
  pub later : from ≤ now
  pub grown : start ≤ t.fails
  pub paid : (t.fails - start) * lock_duration + from ≤ room from t
  pub lock_near : (t.fails ≡ start) ⊎ (lock_end from t.locked_until ≤ now + lock_duration)

fail_room :
    (from start now : ℕ) (t : Tally)
    → IsWithin from start now t
    → before now t.locked_until ≡ false
    → (t.fails + 1 - start) * lock_duration + from ≤ room from (fail_tally now t)
unfolding fail_tally
fail_room from start now t h g = elim t.locked_until [
  | none ↦ ground (arith, h.later, h.grown, h.paid, h.lock_near)
  | some l ↦ ground (arith, h.later, h.grown, h.paid, h.lock_near)
]

fail_lock :
    (from start now : ℕ) (t : Tally)
    → IsWithin from start now t
    → before now t.locked_until ≡ false
    → lock_end from (fail_tally now t).locked_until ≤ now + lock_duration
unfolding fail_tally
fail_lock from start now t h g = ground (arith, h.later)

pub Move-IsWithin :
    (from start now : ℕ) (t t' : Tally)
    → Move now t t'
    → t'.passes ≡ t.passes
    → IsWithin from start now t
    → IsWithin from start now t'
unfolding pass_tally fail_tally
Move-IsWithin from start now t _ idle e h = h
Move-IsWithin from start now t _ (failed g) e h = record {
  later = h.later;
  grown = ground (arith, h.grown);
  paid = fail_room from start now t h g;
  lock_near = inr (fail_lock from start now t h g);
}
Move-IsWithin from start now t _ passes e h = absurd (omega arith)

pub Move-passes : (now : ℕ) (t t' : Tally) → Move now t t' → t.passes ≤ t'.passes
unfolding pass_tally fail_tally
Move-passes now t _ idle = omega arith
Move-passes now t _ (failed g) = omega arith
Move-passes now t _ passes = omega arith

pub later-IsWithin :
    (from start now until : ℕ) (t : Tally)
    → now ≤ until
    → IsWithin from start now t
    → IsWithin from start until t
later-IsWithin from start now until t o h = record {
  later = ground (arith, h.later);
  grown = h.grown;
  paid = h.paid;
  lock_near = ground (arith, h.lock_near);
}

pub start-IsWithin : (from : ℕ) (t : Tally) → IsWithin from t.fails from t
start-IsWithin from t = record {
  later = omega arith;
  grown = omega arith;
  paid = elim t.locked_until [ none ↦ ground arith | some l ↦ ground arith ];
  lock_near = inl refl;
}

pub IsWithin-bound :
    (from start until : ℕ) (t : Tally)
    → IsWithin from start until t
    → (t.fails - start) * lock_duration ≤ (until - from) + 5 * lock_duration
IsWithin-bound from start until t h = elim t.locked_until [
  | none ↦ ground (arith, h.later, h.paid, h.lock_near)
  | some l ↦ ground (arith, h.later, h.paid, h.lock_near)
]
