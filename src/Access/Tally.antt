-- ===== src/Access/Tally.antt =====
-- What the failures of the second factor come to, for one account: its count and lock, and what the
-- audit holds of it. An abstract machine of three moves, and the parts of the code that are moves.
use wf_all.Prelude.{
  ℕ, ◌+◌, ◌==◌, ◌≡◌, refl, ap, ◌∙◌, Bool, true, false, ◌&&◌, List, [], ◌∷◌, ◌++◌, Option, none,
  some, leb, if◌then◌else◌, arith, Bool-cases, inl, inr,
}
use wf_all.Auth.{Staff}
use wf_all.Access.{
  Account, Db, Step, Meta, AuditEntry, Detail, failed_step, passed, new_password, before,
  lock_duration, max_factor_failures, storage,
}
use wf_all.Access.Tx.{pure}
use wf_all.Access.Store.{
  lock_account, set_account, add_factor_failure, lock_out, coalesce, write_audit,
}
use wf_all.Access.Factor.{
  lock_out_account, lock_if_due, record_failure, notifies, entry_of, failure_action, attempts_left,
}
use wf_all.Access.Logic.{Ends, Ends-read, Ends->>=}
use wf_all.Access.Rows.{map_some, lock_account-set_account, lock_account-set_account_other}

pub record Tally : Type 0 where
  pub failures : ℕ
  pub locked_until : Option ℕ
  pub fails : ℕ
  pub passes : ℕ

abbrev pub count : (AuditEntry → Bool) → List AuditEntry → ℕ
count p [] = 0
count p (e ∷ es) = if p e then count p es + 1 else count p es

pub count-append :
    (p : AuditEntry → Bool) (es fs : List AuditEntry) → count p (es ++ fs) ≡ count p es + count p fs
count-append p [] fs = omega arith
count-append p (e ∷ es) fs = ground (arith, count-append p es fs)

abbrev pub fail_detail : Detail → Bool
fail_detail (failed_step step left) = true
fail_detail _ = false

abbrev pub pass_detail : Detail → Bool
pass_detail (passed m) = true
pass_detail (new_password m n) = true
pass_detail _ = false

abbrev pub is_fail : ℕ → AuditEntry → Bool
is_fail i e = fail_detail e.detail && e.object == i

abbrev pub is_pass : ℕ → AuditEntry → Bool
is_pass i e = pass_detail e.detail && e.object == i

abbrev failures_of : Option Account → ℕ
failures_of none = 0
failures_of (some a) = a.failures

abbrev lock_of : Option Account → Option ℕ
lock_of none = none
lock_of (some a) = a.locked_until

-- The tally of a row and of an audit.
unfoldable pub tally_of : ℕ → Option Account → List AuditEntry → Tally
tally_of i row audit = record {
  failures = failures_of row;
  locked_until = lock_of row;
  fails = count (is_fail i) audit;
  passes = count (is_pass i) audit;
}

unfoldable pub tally : ℕ → Db → Tally
unfolding tally_of
tally i db = tally_of i (lock_account i db) db.audit

abbrev due : (now failures : ℕ) → Tally → Tally
due now failures t = record t {
  locked_until =
      if leb max_factor_failures failures then some (now + lock_duration) else t.locked_until;
}

-- A failure: the fifth in a row, and each later one, locks the account for an hour.
unfoldable pub fail_tally : ℕ → Tally → Tally
fail_tally now t = record t {
  failures = t.failures + 1;
  locked_until =
      if leb max_factor_failures (t.failures + 1)
      then some (now + lock_duration)
      else t.locked_until;
  fails = t.fails + 1;
}

unfoldable pub pass_tally : Tally → Tally
pass_tally t = record t { failures = 0; passes = t.passes + 1 }

-- The moves at a time; an account fails only while it is not locked.
pub data Move (now : ℕ) (t : Tally) : Tally → Type 0 where
  idle : Move now t t
  failed : before now t.locked_until ≡ false → Move now t (fail_tally now t)
  passes : Move now t (pass_tally t)

pub count-skip :
    (p : AuditEntry → Bool) (es : List AuditEntry) (e : AuditEntry)
    → p e ≡ false
    → count p (es ++ (e ∷ [])) ≡ count p es
count-skip p es e h = ground (arith, count-append p es (e ∷ []))

pub count-hit :
    (p : AuditEntry → Bool) (es : List AuditEntry) (e : AuditEntry)
    → p e ≡ true
    → count p (es ++ (e ∷ [])) ≡ count p es + 1
count-hit p es e h = ground (arith, count-append p es (e ∷ []))

pub ==-refl : (i : ℕ) → (i == i) ≡ true
==-refl i = ground arith

pub flip : (i j : ℕ) → (i == j) ≡ false → (j == i) ≡ false
flip i j h = ground arith

-- An entry that is no failure and no pass of `i`.
abbrev IsQuiet : ℕ → AuditEntry → Type 0
IsQuiet i e = (is_fail i e ≡ false) × (is_pass i e ≡ false)

pub tally_of-quiet :
    (i : ℕ) (o : Option Account) (es : List AuditEntry) (e : AuditEntry)
    → IsQuiet i e
    → tally_of i o (es ++ (e ∷ [])) ≡ tally_of i o es
unfolding tally_of
tally_of-quiet i o es e h =
    ground (arith, count-skip (is_fail i) es e h.0, count-skip (is_pass i) es e h.1)

-- What the lock of an account leaves of its tally, and of the others'.
lock_out_account-Ends :
    (acct a : Account) (session now : ℕ) (db : Db)
    → lock_account acct.id db ≡ some a
    → Ends
        (λ _ db'.
          (tally acct.id db'
            ≡ record (tally acct.id db) { locked_until = some (now + lock_duration) })
          × ((j : ℕ) → (j == acct.id) ≡ false → tally j db' ≡ tally j db))
        (lock_out_account acct session now db)
unfolding lock_out_account lock_out tally lock_account
lock_out_account-Ends acct a session now db e =
    let until = some (now + lock_duration) in
    let noted = if notifies acct.lock_notified_at now then some now else none in
    let change = λ (x : Account). record x {
      locked_until = until;
      lock_notified_at = coalesce noted x.lock_notified_at;
      version = x.version + 1;
    } in
    let db1 = set_account acct.id change db in
    let here = lock_account-set_account acct.id change db (λ x. refl) ∙ ap (map_some change) e in
    Ends-read _ (lock_account acct.id) storage _ db1 (change a) here (
      rw (here, e) (tally_of-quiet acct.id (some (change a)) db.audit _ (refl, refl)),
      λ j h.
          rw (lock_account-set_account_other j acct.id change db (λ x. refl) h)
            (tally_of-quiet j (lock_account j db) db.audit _ (refl, refl)),
    )

-- The failures and the lock, where the lockout is due.
lock_if_due-Ends :
    (acct a : Account) (failures session now : ℕ) (db : Db)
    → lock_account acct.id db ≡ some a
    → before now acct.locked_until ≡ false
    → Ends
        (λ _ db'.
          (tally acct.id db' ≡ due now failures (tally acct.id db))
          × ((j : ℕ) → (j == acct.id) ≡ false → tally j db' ≡ tally j db))
        (lock_if_due acct failures session now db)
unfolding lock_if_due
lock_if_due-Ends acct a failures session now db e h =
    elim (Bool-cases (leb max_factor_failures failures)) [
      | inl d ↦ rw (d, h) (lock_out_account-Ends acct a session now db e)
      | inr d ↦ rw d (refl, λ j g. refl)
    ]

failed_tally_of :
    (now : ℕ) (a : Account) (es : List AuditEntry) (e : AuditEntry)
    → is_fail a.id e ≡ true
    → is_pass a.id e ≡ false
    → due now
        (a.failures + 1)
        (tally_of a.id (some (record a { failures = a.failures + 1 })) (es ++ (e ∷ [])))
      ≡ fail_tally now (tally_of a.id (some a) es)
unfolding tally_of fail_tally
failed_tally_of now a es e h g =
    ground (arith, count-hit (is_fail a.id) es e h, count-skip (is_pass a.id) es e g)

-- A failure that is recorded is the move of a failure, for its account, and leaves the others.
pub record_failure-Ends :
    (acct : Account) (s : Staff) (step : Step) (m : Meta) (now : ℕ) (db : Db)
    → lock_account acct.id db ≡ some acct
    → before now acct.locked_until ≡ false
    → Ends
        (λ _ db'.
          (tally acct.id db' ≡ fail_tally now (tally acct.id db))
          × ((j : ℕ) → (j == acct.id) ≡ false → tally j db' ≡ tally j db))
        (record_failure acct s step m now db)
unfolding record_failure add_factor_failure entry_of tally
record_failure-Ends acct s step m now db e h =
    let change = λ (x : Account). record x { failures = x.failures + 1 } in
    let db1 = add_factor_failure acct.id db in
    let a = change acct in
    let left = attempts_left a.failures in
    let entry = entry_of acct (failure_action step) (failed_step step left) m in
    let db2 = write_audit entry db1 in
    let here = lock_account-set_account acct.id change db (λ x. refl) ∙ ap (map_some change) e in
    Ends-read _ (lock_account acct.id) storage _ db1 a here (
      Ends->>= _ _ (lock_if_due acct a.failures s.session_id now) (λ _. pure left) db2
        (lock_if_due-Ends acct a a.failures s.session_id now db2 here h)
        (λ _ db' ends. (
          ends.0 ∙ rw (here, e) (failed_tally_of now acct db.audit entry (==-refl acct.id) refl),
          λ j g.
              ends.1 j g
              ∙ rw (lock_account-set_account_other j acct.id change db (λ x. refl) g)
                  (tally_of-quiet j (lock_account j db) db.audit entry (flip j acct.id g, refl)),
        )))
