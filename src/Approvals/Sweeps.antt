-- ===== src/Approvals/Sweeps.antt =====
-- The batches of ExpireDue and PurgeDecided: how many rows one meets, and that the loops end with
-- nothing left to do.
use wf_all.Prelude.{
  ℕ, zero, suc, ◌+◌, ◌<◌, ◌≤◌, ◌≡◌, refl, sym, ap, subst, Bool, true, false, not, ◌&&◌, List, [],
  ◌∷◌, Option, none, length, take, keep, arith, min,
}
use wf_all.Approvals.{Row, State}
use wf_all.Prelude.Drain.{drain, Drained, drain-Drained}
use wf_all.Prelude.Int.{pos}
use wf_all.Approvals.Decide.{record_decision}
use wf_all.Approvals.Batch.{
  sweep, is_due, expire_by_system, sooner, insert, sort, has_id, in_batch, is_old, decided_sooner,
  record_all, expire_batch, expire_due, purge_batch, purge_decided, purged, kept_from,
}

module _ {P : Type 0} where
  length-keep-insert :
      (p : Row P → Bool) (before : Row P → Row P → Bool) (r : Row P) (rs : List (Row P))
      → length (keep p (insert before r rs)) ≡ length (keep p (r ∷ rs))
  unfolding insert
  length-keep-insert p before r [] = refl
  length-keep-insert p before r (x ∷ xs) = ground (arith, length-keep-insert p before r xs)

  length-keep-sort :
      (p : Row P → Bool) (before : Row P → Row P → Bool) (rs : List (Row P))
      → length (keep p (sort before rs)) ≡ length (keep p rs)
  unfolding sort
  length-keep-sort p before [] = refl
  length-keep-sort p before (r ∷ rs) =
      ground (arith, length-keep-insert p before r (sort before rs), length-keep-sort p before rs)

  -- At least the first `k` of a list have an id among the first `k`.
  has_id_mono :
      (xs : List (Row P)) (x : Row P) (i : ℕ) → has_id xs i ≡ true → has_id (x ∷ xs) i ≡ true
  unfolding has_id
  has_id_mono xs x i h = ground arith

  has_id_self : (xs : List (Row P)) (x : Row P) → has_id (x ∷ xs) x.id ≡ true
  unfolding has_id
  has_id_self xs x = ground arith

  length-keep-true : (xs : List (Row P)) → length (keep (λ _. true) xs) ≡ length xs
  length-keep-true [] = refl
  length-keep-true (x ∷ xs) = ap suc (length-keep-true xs)

  length-keep_mono :
      (p q : Row P → Bool) (xs : List (Row P))
      → ((x : Row P) → p x ≡ true → q x ≡ true)
      → length (keep p xs) ≤ length (keep q xs)
  length-keep_mono p q [] h = omega arith
  length-keep_mono p q (x ∷ xs) h = ground (arith, h x, length-keep_mono p q xs h)

  length-keep-take :
      (k : ℕ) (xs : List (Row P))
      → min k (length xs) ≤ length (keep (λ r. has_id (take k xs) r.id) xs)
  length-keep-take zero xs = omega arith
  length-keep-take (suc k) [] = omega arith
  length-keep-take (suc k) (x ∷ xs) = rw (has_id_self (take k xs) x) (
      omega (
        arith,
        length-keep-take k xs,
        length-keep_mono (λ r. has_id (take k xs) r.id) (λ r. has_id (x ∷ take k xs) r.id) xs
            (λ r. has_id_mono (take k xs) x r.id),
      ))

  keep-&& :
      (p q : Row P → Bool) (xs : List (Row P)) → keep (λ r. p r && q r) xs ≡ keep q (keep p xs)
  keep-&& p q [] = refl
  keep-&& p q (x ∷ xs) = ground (arith, keep-&& p q xs)

  -- A batch meets as many rows as its limit and the rows that are due allow.
  min-le-batch :
      (hit : Row P → Bool) (before : Row P → Row P → Bool) (lim : ℕ) (rs : List (Row P))
      → min lim (length (keep hit rs)) ≤ length (keep (in_batch hit before lim rs) rs)
  unfolding in_batch
  min-le-batch hit before lim rs =
      let due = keep hit rs in
      let chosen = λ (r : Row P). has_id (take lim (sort before due)) r.id in
      omega (
        arith,
        ap length (keep-&& hit chosen rs),
        length-keep-sort chosen before due,
        length-keep-sort (λ _. true) before due,
        length-keep-take lim (sort before due),
        length-keep-true (sort before due),
        length-keep-true due,
      )

  pub in_batch-hit :
      (hit : Row P → Bool) (before : Row P → Row P → Bool) (lim : ℕ) (rs : List (Row P)) (r : Row P)
      → in_batch hit before lim rs r ≡ true
      → hit r ≡ true
  unfolding in_batch
  in_batch-hit hit before lim rs r h = ground arith

  -- A sweep takes the rows that it changes out of those that are due.
  length-keep-sweep :
      (due hit : Row P → Bool) (change : Row P → Row P)
      → ((r : Row P) → hit r ≡ true → due r ≡ true)
      → ((r : Row P) → due (change r) ≡ false)
      → (rs : List (Row P))
      → let (rows, changed) = sweep hit change rs in
        length (keep due rows) + length changed ≡ length (keep due rs)
  unfolding sweep
  length-keep-sweep due hit change h c [] = refl
  length-keep-sweep due hit change h c (r ∷ rs) =
      ground (arith, h r, c r, length-keep-sweep due hit change h c rs)

  length-sweep :
      (hit : Row P → Bool) (change : Row P → Row P) (rs : List (Row P))
      → length (sweep hit change rs).1 ≡ length (keep hit rs)
  unfolding sweep
  length-sweep hit change [] = refl
  length-sweep hit change (r ∷ rs) = ground (arith, length-sweep hit change rs)

  -- The same of rows that are deleted.
  length-keep-delete :
      (due hit : Row P → Bool)
      → ((r : Row P) → hit r ≡ true → due r ≡ true)
      → (rs : List (Row P))
      → length (keep due (keep (λ r. not (hit r)) rs)) + length (keep hit rs) ≡ length (keep due rs)
  length-keep-delete due hit h [] = refl
  length-keep-delete due hit h (r ∷ rs) = ground (arith, h r, length-keep-delete due hit h rs)

  is_due-expired :
      (locked : ℕ → Bool) (now : ℕ) (r : Row P) → is_due locked now (expire_by_system r) ≡ false
  unfolding is_due expire_by_system
  is_due-expired locked now r = refl

module _ {W P : Type 0} where
  pub rows-record_all : (s : State W P) (rs : List (Row P)) → (record_all s rs).rows ≡ s.rows
  unfolding record_all record_decision
  rows-record_all s [] = refl
  rows-record_all s (r ∷ rs) = rows-record_all (record_decision s r none) rs

  -- How many rows are due.
  abbrev pub due_count : State W P → (ℕ → Bool) → ℕ → ℕ
  due_count s locked now = length (keep (is_due locked now) s.rows)

  expire_batch-count :
      (s : State W P) (locked : ℕ → Bool) (now lim : ℕ)
      → let (s', n) = expire_batch s locked now lim in
        (due_count s' locked now + n ≡ due_count s locked now)
        × (min lim (due_count s locked now) ≤ n)
  unfolding expire_batch
  expire_batch-count s locked now lim =
      let hit = in_batch (is_due locked now) sooner lim s.rows in
      let out = sweep hit expire_by_system s.rows in
      (
        subst
            (λ (rs : List (Row P)).
              length (keep (is_due locked now) rs) + length out.1 ≡ due_count s locked now)
            (sym (rows-record_all (record s { rows = out.0 }) out.1))
            (length-keep-sweep (is_due locked now) hit expire_by_system
              (in_batch-hit (is_due locked now) sooner lim s.rows) (is_due-expired locked now)
              s.rows),
        omega (
          arith,
          length-sweep hit expire_by_system s.rows,
          min-le-batch (is_due locked now) sooner lim s.rows,
        ),
      )

  -- `ExpireDue` with a batch of at least one row ends with fuel above the number of due rows: every
  -- request whose deadline has come, and whose row nobody locks, is no longer pending, and the number
  -- returned is how many there were.
  pub expire_due-Drained :
      (fuel : ℕ) (s : State W P) (locked : ℕ → Bool) (now lim : ℕ)
      → 0 < lim
      → due_count s locked now < fuel
      → Drained (λ t. due_count t locked now) s (expire_due fuel s locked now lim)
  unfolding expire_due
  expire_due-Drained fuel s locked now lim some_rows h =
      drain-Drained (λ t. expire_batch t locked now lim) lim (λ t. due_count t locked now)
        (λ t. expire_batch-count t locked now lim) some_rows fuel s h

  -- How many rows were decided before a time.
  abbrev pub old_count : ℕ → State W P → ℕ
  old_count before s = length (keep (is_old before) s.rows)

  purge_batch-count :
      (s : State W P) (before lim : ℕ)
      → let (s', n) = purge_batch s before lim in
        (old_count before s' + n ≡ old_count before s) × (min lim (old_count before s) ≤ n)
  unfolding purge_batch
  purge_batch-count s before lim = (
    length-keep-delete (is_old before) (in_batch (is_old before) decided_sooner lim s.rows)
        (in_batch-hit (is_old before) decided_sooner lim s.rows) s.rows,
    min-le-batch (is_old before) decided_sooner lim s.rows,
  )

  -- `PurgeDecided` with a positive retention and a batch of at least one row ends with fuel above the
  -- number of requests that were decided before the retention began, and deletes exactly as many, so
  -- that none of them is left.
  pub purge_decided-Drained :
      (fuel : ℕ) (s : State W P) (now older_than lim : ℕ)
      → 0 < older_than
      → 0 < lim
      → old_count (kept_from now older_than) s < fuel
      → (o : Option (State W P × ℕ)) × (purge_decided fuel s now (pos older_than) lim ≡ purged o)
        × Drained (old_count (kept_from now older_than)) s o
  unfolding purge_decided
  purge_decided-Drained fuel s now older_than lim p q h = (
    drain (λ t. purge_batch t (kept_from now older_than) lim) lim fuel s,
    ground arith,
    drain-Drained (λ t. purge_batch t (kept_from now older_than) lim) lim
        (old_count (kept_from now older_than))
        (λ t. purge_batch-count t (kept_from now older_than) lim) q fuel s h,
  )
