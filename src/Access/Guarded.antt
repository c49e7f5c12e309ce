-- ===== src/Access/Guarded.antt =====
-- factor.go: withFactor and the steps of the sign-in that it guards, with the change of sessions.
use wf_all.Prelude.{
  ℕ, ◌+◌, ◌==◌, Bool, true, false, not, ◌&&◌, ◌||◌, Option, none, some, Text, if◌then◌else◌,
}
use wf_all.Auth.{Staff, Stage, mfa_pending}
use wf_all.Access.{
  Account, Session, Db, Step, step_unlock, Action, login, unlock, passed, session_ttl, same_stage,
  replaced, Err, session_invalid, was_replaced, wrong_stage, mfa_invalid, password_invalid,
  no_randomness, mfa_error,
}
use wf_all.Access.Tx.{Res, ok, err, Tx, ◌>>=◌, ◌>>◌, pure, raise, or_raise, guard, modify, in_tx}
use wf_all.Access.Store.{
  lock_account, factor_succeeded, revoke_where, is_session, insert_session, write_audit,
}
use wf_all.Access.Factor.{
  Services, Env, attempts_left, factor_method, entry_of, lock_live_session, record_failure,
  check_factor,
}

-- What a factorCheck finds: success with a result, or the kind of the failure.
pub data Checked (R : Type 0) : Type 0 where
  success : R → Checked R
  failure : Err → Checked R

-- The kinds that count as a failure.
abbrev pub is_counted : Err → Bool
is_counted mfa_invalid = true
is_counted password_invalid = true
is_counted _ = false

-- The result of the transaction: a result, or a failure with what is left of the attempts.
pub data Tried (R : Type 0) : Type 0 where
  done : R → Tried R
  counted : Err → (left : ℕ) → Tried R

module _ {R : Type 0} where
  unfoldable pub after_check : Env → Staff → Step → Account → Checked R → Tx (Tried R)
  unfolding record_failure
  after_check env s step acct (success r) = pure (done r)
  after_check env s step acct (failure f) =
      if is_counted f
      then (do left ← record_failure acct s step env.client env.now; pure (counted f left))
      else raise f

  unfoldable pub factor_tx : Env → Staff → Step → (Account → Tx (Checked R)) → Tx (Tried R)
  unfolding lock_account after_check
  factor_tx env s step check = do
    acct ← (λ db. or_raise (lock_account s.staff_id db) session_invalid db)
    c ← check acct
    after_check env s step acct c

  unfoldable pub conclude : Res (Tried R) → Res R
  conclude (ok (done r)) = ok r
  conclude (ok (counted f left)) = err (mfa_error left f)
  conclude (err e) = err e

  -- withFactor.
  unfoldable pub with_factor : Env → Staff → Step → (Account → Tx (Checked R)) → Db → Db × Res R
  unfolding in_tx factor_tx conclude
  with_factor env s step check db =
      let (db', r) = in_tx env.faulty (factor_tx env s step check) db in (db', conclude r)

-- The fields of a new session.
pub record NewSession : Type 0 where
  pub new_staff : ℕ
  pub new_stage : Stage
  pub created : ℕ
  pub expires : ℕ
  pub new_mfa_at : Option ℕ

unfoldable pub session_of : Env → NewSession → ℕ → Session
session_of env ns hash = record {
  session_id = env.new_id;
  staff_id = ns.new_staff;
  token_hash = hash;
  stage = ns.new_stage;
  created_at = ns.created;
  last_seen_at = env.now;
  mfa_at = ns.new_mfa_at;
  expires_at = ns.expires;
  ip = env.client.meta_ip;
  user_agent = env.client.meta_agent;
  revoked_at = none;
  revoked_reason = none;
}

-- replaceSession: the token for the cookie. An old session uuid.Nil is none.
unfoldable pub replace_session : Env → ℕ → NewSession → Tx ℕ
unfolding revoke_where is_session insert_session session_of
replace_session env old ns = do
  modify (λ db. if not (old == 0) then revoke_where (is_session old) env.now replaced db else db)
  t ← or_raise env.fresh no_randomness
  modify (insert_session (session_of env ns t.1))
  pure t.0

abbrev pub want_stage : Step → Stage
want_stage step_unlock = Stage.active
want_stage _ = mfa_pending

abbrev pub pass_action : Step → Action
pass_action step_unlock = unlock
pass_action _ = login

-- The fields of the session after a pass: an unlock keeps the end of the old one.
unfoldable pub passed_session : Step → Staff → Session → ℕ → NewSession
passed_session step_unlock s sess now = record {
  new_staff = s.staff_id;
  new_stage = Stage.active;
  created = sess.created_at;
  expires = sess.expires_at;
  new_mfa_at = some now;
}
passed_session _ s sess now = record {
  new_staff = s.staff_id;
  new_stage = Stage.active;
  created = now;
  expires = now + session_ttl;
  new_mfa_at = some now;
}

abbrev pub login_time : Step → ℕ → Option ℕ
login_time step_unlock now = none
login_time _ now = some now

abbrev pub is_unlock : Step → Bool
is_unlock step_unlock = true
is_unlock _ = false

module _ (sv : Services) where
  -- What follows a factor that is right.
  unfoldable pub let_in : Env → Staff → Text → Step → Account → Session → Tx (Checked ℕ)
  unfolding replace_session passed_session factor_succeeded entry_of
  let_in env s code step acct sess = do
    raw ← replace_session env s.session_id (passed_session step s sess env.now)
    modify (factor_succeeded (login_time step env.now) s.staff_id)
    modify (write_audit (entry_of acct (pass_action step) (passed (factor_method code)) env.client))
    pure (success raw)

  unfoldable pub pass_check : Env → Staff → Text → Text → Step → Account → Tx (Checked ℕ)
  unfolding lock_live_session check_factor let_in
  pass_check env s code recovery step acct = do
    sess ← lock_live_session s acct env.now
    guard (same_stage sess.stage (want_stage step)) wrong_stage
    right ← check_factor sv s.staff_id code recovery env.now
    if right then let_in env s code step acct sess else pure (failure mfa_invalid)

  -- errReplaced is an MFAError without a record.
  unfoldable pub hide_replaced : Option Account → Res ℕ → Res ℕ
  unfolding attempts_left
  hide_replaced (some a) (err was_replaced) = err (mfa_error (attempts_left a.failures) mfa_invalid)
  hide_replaced _ r = r

  -- passFactor, which VerifyMFA and Unlock are.
  unfoldable pub pass_factor : Env → Staff → Text → Text → Step → Db → Db × Res ℕ
  unfolding with_factor pass_check hide_replaced lock_account
  pass_factor env s code recovery step db =
      if not (same_stage s.stage (want_stage step)) || (is_unlock step && not s.reauth)
      then (db, err wrong_stage)
      else let (db', r) = with_factor env s step (pass_check env s code recovery step) db in
        (db', hide_replaced (lock_account s.staff_id db) r)
