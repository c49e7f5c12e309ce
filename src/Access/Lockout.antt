-- ===== src/Access/Lockout.antt =====
-- factor.go: what a failure that closes an account leaves: no session of it, and a lock of an hour.
use wf_all.Prelude.{
  ℕ, ◌+◌, ◌≡◌, refl, ap, ◌∙◌, true, false, ◌&&◌, List, [], ◌∷◌, none, some, leb, if◌then◌else◌,
  arith, length, keep,
}
use wf_all.Auth.{Staff}
use wf_all.Access.{
  Account, Session, Db, Step, Meta, before, is_null, Reason, locked, lock_duration,
  max_factor_failures, storage, failed_step,
}
use wf_all.Access.Tx.{pure}
use wf_all.Access.Store.{
  lock_account, set_account, lock_out, add_factor_failure, coalesce, update, end_session,
  revoke_where, count_sessions, is_of, write_audit,
}
use wf_all.Access.Factor.{
  lock_out_account, lock_if_due, record_failure, notifies, attempts_left, entry_of, failure_action,
}
use wf_all.Access.Logic.{Ends, Ends-read, Ends->>=, Ends-weaken, Ends-both}
use wf_all.Access.Rows.{map_some, lock_account-set_account}
use wf_all.Access.Tally.{tally, tally_of, fail_tally, record_failure-Ends}

ended-is_of : (i now : ℕ) (r : Reason) (s : Session) → is_of i (end_session now r s) ≡ is_of i s
unfolding is_of end_session
ended-is_of i now r s = refl

ended-is_null :
    (now : ℕ) (r : Reason) (s : Session) → is_null (end_session now r s).revoked_at ≡ false
unfolding end_session
ended-is_null now r s = refl

none_left :
    (i now : ℕ) (r : Reason) (ss : List Session)
    → length (
        keep
          (λ s. is_of i s && is_null s.revoked_at)
          (update (λ s. is_of i s && is_null s.revoked_at) (end_session now r) ss))
      ≡ 0
unfolding update
none_left i now r [] = refl
none_left i now r (s ∷ ss) = ground (arith, ended-is_null now r s, none_left i now r ss)

-- No session of an account is left that is not revoked.
abbrev pub AreEnded : ℕ → Db → Type 0
AreEnded i db = count_sessions (is_of i) db ≡ 0

lock_out_account-AreEnded :
    (acct a : Account) (session now : ℕ) (db : Db)
    → lock_account acct.id db ≡ some a
    → Ends (λ _. AreEnded acct.id) (lock_out_account acct session now db)
unfolding lock_out_account lock_out revoke_where count_sessions set_account
lock_out_account-AreEnded acct a session now db e =
    let until = some (now + lock_duration) in
    let noted = if notifies acct.lock_notified_at now then some now else none in
    let change = λ (x : Account). record x {
      locked_until = until;
      lock_notified_at = coalesce noted x.lock_notified_at;
      version = x.version + 1;
    } in
    let db1 = set_account acct.id change db in
    let here = lock_account-set_account acct.id change db (λ x. refl) ∙ ap (map_some change) e in
    Ends-read _ (lock_account acct.id) storage _ db1 (change a) here
      (none_left acct.id now locked db.sessions)

lock_if_due-AreEnded :
    (acct a : Account) (failures session now : ℕ) (db : Db)
    → lock_account acct.id db ≡ some a
    → before now acct.locked_until ≡ false
    → leb max_factor_failures failures ≡ true
    → Ends (λ _. AreEnded acct.id) (lock_if_due acct failures session now db)
unfolding lock_if_due
lock_if_due-AreEnded acct a failures session now db e h d =
    rw (d, h) (lock_out_account-AreEnded acct a session now db e)

record_failure-AreEnded :
    (acct : Account) (s : Staff) (step : Step) (m : Meta) (now : ℕ) (db : Db)
    → lock_account acct.id db ≡ some acct
    → before now acct.locked_until ≡ false
    → leb max_factor_failures (acct.failures + 1) ≡ true
    → Ends (λ left db'. AreEnded acct.id db' × (left ≡ 0)) (record_failure acct s step m now db)
unfolding record_failure add_factor_failure attempts_left
record_failure-AreEnded acct s step m now db e h d =
    let change = λ (x : Account). record x { failures = x.failures + 1 } in
    let db1 = add_factor_failure acct.id db in
    let a = change acct in
    let left = attempts_left a.failures in
    let entry = entry_of acct (failure_action step) (failed_step step left) m in
    let db2 = write_audit entry db1 in
    let here = lock_account-set_account acct.id change db (λ x. refl) ∙ ap (map_some change) e in
    Ends-read _ (lock_account acct.id) storage _ db1 a here (
      Ends->>= _ _ (lock_if_due acct a.failures s.session_id now) (λ _. pure left) db2
        (lock_if_due-AreEnded acct a a.failures s.session_id now db2 here h d)
        λ _ db' ends. (ends, ground (arith, d)))

due_lock :
    (acct : Account) (now : ℕ) (db : Db)
    → lock_account acct.id db ≡ some acct
    → leb max_factor_failures (acct.failures + 1) ≡ true
    → (fail_tally now (tally acct.id db)).locked_until ≡ some (now + lock_duration)
unfolding tally fail_tally tally_of
due_lock acct now db e d = rw (e, d) refl

-- A failure of an account that is not locked, the fifth in a row or a later one, leaves no attempt, no
-- session of the account that is not revoked, and a lock for an hour from now, where the
-- transaction does not fail.
pub record_failure-locks :
    (acct : Account) (s : Staff) (step : Step) (m : Meta) (now : ℕ) (db : Db)
    → lock_account acct.id db ≡ some acct
    → before now acct.locked_until ≡ false
    → leb max_factor_failures (acct.failures + 1) ≡ true
    → Ends
        (λ left db'.
          (AreEnded acct.id db' × (left ≡ 0))
          × ((tally acct.id db').locked_until ≡ some (now + lock_duration)))
        (record_failure acct s step m now db)
record_failure-locks acct s step m now db e h d =
    Ends-both _ _ (record_failure acct s step m now db)
      (record_failure-AreEnded acct s step m now db e h d)
      (Ends-weaken _ _ (record_failure acct s step m now db)
        (λ _ db' ends. ap (λ t. t.locked_until) ends.0 ∙ due_lock acct now db e d)
        (record_failure-Ends acct s step m now db e h))
